-- ===== src/Client/Receive/Untouched.antt =====
-- What a round of the listener leaves alone of a stream, and how the time-out does.
use facetime_v.Base.{
  Map, Option, [], arith, bytes_instance, false, insert, lookup, nat_instance, none, not, refl,
  remove, same, same_iff, some, sym, ℕ, ◌∙◌, ◌∷◌, ◌≡◌, ◌≤◌,
}
use facetime_v.Protocol.Names.{StreamId}
use facetime_v.Client.Receive.{Listener, FragmentBuffer, expire, is_expired}
use facetime_v.Client.Receive.Expiry.{
  buffers_of, buffers_of-retain, lookup-retain, lookup-retain-none, lookup-mark_expired,
  lookup-mark_expired-none,
}
use facetime_v.Client.Receive.Round.{IsClear}

-- What the listener has of the stream is as it was.
pub record Untouched {F : Type 0} (sid : StreamId) (l l' : Listener F) : Type 0 where
  pub held : lookup sid l'.fragment_buffers ≡ lookup sid l.fragment_buffers
  pub not_more : buffers_of sid l'.fragment_buffers ≤ buffers_of sid l.fragment_buffers
  pub cached : lookup sid l'.frame_caches ≡ lookup sid l.frame_caches
  pub seen : lookup sid l'.sid_to_frame_map ≡ lookup sid l.sid_to_frame_map
  pub clear : IsClear l.buffer_pool → IsClear l'.buffer_pool

pub Untouched-refl : {F : Type 0} (sid : StreamId) (l : Listener F) → Untouched sid l l
Untouched-refl sid l = record {
  held = refl;
  not_more = omega arith;
  cached = refl;
  seen = refl;
  clear = λ h. h;
}

pub Untouched-trans :
    {F : Type 0} (sid : StreamId) (l m n : Listener F)
    → Untouched sid l m
    → Untouched sid m n
    → Untouched sid l n
Untouched-trans sid l m n u v = record {
  held = v.held ∙ u.held;
  not_more = omega (arith, u.not_more, v.not_more);
  cached = v.cached ∙ u.cached;
  seen = v.seen ∙ u.seen;
  clear = λ h. v.clear (u.clear h);
}

pub buffers_of-insert_other :
    (sid other : StreamId) (fb : FragmentBuffer) (m : Map StreamId FragmentBuffer)
    → same other sid ≡ false
    → buffers_of sid (insert other fb m) ≤ buffers_of sid m
unfolding buffers_of insert
buffers_of-insert_other sid other fb [] ne = ground (arith, ne)
buffers_of-insert_other sid other fb ((k, v) ∷ m) ne =
    ground (arith, ne, same_iff k other, buffers_of-insert_other sid other fb m ne)

pub buffers_of-remove_other :
    (sid other : StreamId) (m : Map StreamId FragmentBuffer)
    → buffers_of sid (remove other m) ≤ buffers_of sid m
unfolding buffers_of remove
buffers_of-remove_other sid other [] = omega arith
buffers_of-remove_other sid other ((k, v) ∷ m) = ground (arith, buffers_of-remove_other sid other m)

pub buffers_of-none :
    (sid : StreamId) (m : Map StreamId FragmentBuffer) → lookup sid m ≡ none → buffers_of sid m ≡ 0
unfolding buffers_of lookup
buffers_of-none sid [] e = refl
buffers_of-none sid ((k, v) ∷ m) e = ground (arith, e, buffers_of-none sid m)

-- The stream has at most one buffer, and it is not too old.
pub record IsYoung {F : Type 0} (sid : StreamId) (now : ℕ) (l : Listener F) : Type 0 where
  pub single : buffers_of sid l.fragment_buffers ≤ 1
  pub young :
      (fb : FragmentBuffer) → lookup sid l.fragment_buffers ≡ some fb → is_expired now fb ≡ false

pub expire-Untouched :
    {F : Type 0} (sid : StreamId) (now : ℕ) (l : Listener F) (o : Option FragmentBuffer)
    → lookup sid l.fragment_buffers ≡ o
    → IsYoung sid now l
    → Untouched sid l (expire now l)
unfolding expire
expire-Untouched sid now l none e y = record {
  held = lookup-retain-none sid (λ fb. not (is_expired now fb)) l.fragment_buffers e ∙ sym e;
  not_more = buffers_of-retain sid (λ fb. not (is_expired now fb)) l.fragment_buffers;
  cached =
      lookup-mark_expired-none now sid l.fragment_buffers l.frame_caches
        (buffers_of-none sid l.fragment_buffers e);
  seen = refl;
  clear = λ h. h;
}
expire-Untouched sid now l (some fb) e y =
    let young = y.young fb e in
    record {
      held =
          lookup-retain sid fb (λ b. not (is_expired now b)) l.fragment_buffers e (rw young refl)
          ∙ sym e;
      not_more = buffers_of-retain sid (λ b. not (is_expired now b)) l.fragment_buffers;
      cached = lookup-mark_expired now sid fb l.fragment_buffers l.frame_caches y.single e young;
      seen = refl;
      clear = λ h. h;
    }

pub IsYoung-Untouched :
    {F : Type 0} (sid : StreamId) (now : ℕ) (l l' : Listener F)
    → Untouched sid l l'
    → IsYoung sid now l
    → IsYoung sid now l'
IsYoung-Untouched sid now l l' u y = record {
  single = omega (arith, u.not_more, y.single);
  young = λ fb e. y.young fb (sym u.held ∙ e);
}
