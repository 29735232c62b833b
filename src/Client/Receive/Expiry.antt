-- ===== src/Client/Receive/Expiry.antt =====
-- What the time-out does to a stream: nothing, as long as the stream has no buffer that is too old.
use facetime_v.Base.{
  Bool, Bool-cases, Map, Option, [], arith, bytes_instance, false, if◌then◌else◌, inl, inr, insert,
  lookup, lookup-insert, nat_instance, none, refl, remove, retain, same, same_refl, some, suc, true,
  ℕ, ◌∷◌, ◌≡◌, ◌≤◌,
}
use facetime_v.Client.Receive.{
  FragmentBuffer, FrameCache, is_expired, mark, mark_expired, mark_corrupted,
}
use facetime_v.Protocol.Names.{StreamId}

-- How many buffers the stream has.
unfoldable pub buffers_of : StreamId → Map StreamId FragmentBuffer → ℕ
buffers_of sid [] = 0
buffers_of sid ((k, fb) ∷ m) = if same k sid then suc (buffers_of sid m) else buffers_of sid m

pub buffers_of-insert :
    (sid : StreamId) (fb : FragmentBuffer) (m : Map StreamId FragmentBuffer)
    → buffers_of sid m ≤ 1
    → buffers_of sid (insert sid fb m) ≤ 1
unfolding buffers_of insert
buffers_of-insert sid fb [] h = ground (arith, same_refl sid)
buffers_of-insert sid fb ((k, v) ∷ m) h =
    ground (arith, h, same_refl sid, buffers_of-insert sid fb m)

pub buffers_of-retain :
    (sid : StreamId) (q : FragmentBuffer → Bool) (m : Map StreamId FragmentBuffer)
    → buffers_of sid (retain (λ e. q e.1) m) ≤ buffers_of sid m
unfolding buffers_of
buffers_of-retain sid q [] = omega arith
buffers_of-retain sid q ((k, v) ∷ m) = ground (arith, buffers_of-retain sid q m)

pub lookup-retain :
    (sid : StreamId) (fb : FragmentBuffer) (q : FragmentBuffer → Bool)
    (m : Map StreamId FragmentBuffer)
    → lookup sid m ≡ some fb
    → q fb ≡ true
    → lookup sid (retain (λ e. q e.1) m) ≡ some fb
unfolding lookup
lookup-retain sid fb q [] e h = cc
lookup-retain sid fb q ((k, v) ∷ m) e h = ground (arith, lookup-retain sid fb q m)

pub lookup-retain-none :
    (sid : StreamId) (q : FragmentBuffer → Bool) (m : Map StreamId FragmentBuffer)
    → lookup sid m ≡ none
    → lookup sid (retain (λ e. q e.1) m) ≡ none
unfolding lookup
lookup-retain-none sid q [] e = refl
lookup-retain-none sid q ((k, v) ∷ m) e = ground (arith, lookup-retain-none sid q m)

lookup-mark :
    (sid other : StreamId) (o : Option FrameCache) (caches : Map StreamId FrameCache)
    → same other sid ≡ false
    → lookup sid (mark other o caches) ≡ lookup sid caches
unfolding mark
lookup-mark sid other none caches h = refl
lookup-mark sid other (some c) caches h =
    ground (arith, h, lookup-insert other sid (mark_corrupted c) caches)

-- The cache of a stream without a buffer is left alone.
pub lookup-mark_expired-none :
    (now : ℕ) (sid : StreamId) (m : Map StreamId FragmentBuffer) (caches : Map StreamId FrameCache)
    → buffers_of sid m ≡ 0
    → lookup sid (mark_expired now m caches) ≡ lookup sid caches
unfolding mark_expired buffers_of
lookup-mark_expired-none now sid [] caches h = refl
lookup-mark_expired-none now sid ((k, v) ∷ m) caches h = ground (
  arith,
  h,
  lookup-mark sid k (lookup k caches) caches,
  lookup-mark_expired-none now sid m caches,
  lookup-mark_expired-none now sid m (mark k (lookup k caches) caches),
)

-- And so is that of a stream whose one buffer is young.
pub lookup-mark_expired :
    (now : ℕ) (sid : StreamId) (fb : FragmentBuffer) (m : Map StreamId FragmentBuffer)
    (caches : Map StreamId FrameCache)
    → buffers_of sid m ≤ 1
    → lookup sid m ≡ some fb
    → is_expired now fb ≡ false
    → lookup sid (mark_expired now m caches) ≡ lookup sid caches
unfolding mark_expired buffers_of lookup
lookup-mark_expired now sid fb [] caches h e y = cc
lookup-mark_expired now sid fb ((k, v) ∷ m) caches h e y = elim (Bool-cases (same k sid)) [
  | inl here ↦ ground (arith, here, e, y, lookup-mark_expired-none now sid m caches)
  | inr there ↦ ground (
    arith,
    there,
    h,
    lookup-mark sid k (lookup k caches) caches,
    lookup-mark_expired now sid fb m caches,
    lookup-mark_expired now sid fb m (mark k (lookup k caches) caches),
  )
]

pub buffers_of-remove :
    (sid : StreamId) (m : Map StreamId FragmentBuffer) → buffers_of sid (remove sid m) ≡ 0
unfolding buffers_of remove
buffers_of-remove sid [] = refl
buffers_of-remove sid ((k, v) ∷ m) = ground (arith, buffers_of-remove sid m)
