-- ===== src/Client/Delta/Chunks.antt =====
-- What the runs of `create_delta_optimized` cover, and that its loop ends.
use facetime_v.Base.{
  Bool-cases, Bytes, List, [], arith, as_u32, drop, false, inl, inr, is_empty, leb, length,
  length-drop, length-take, min, refl, suc, take, true, zero, ℕ, ◌+◌, ◌<◌, ◌==◌, ◌∷◌, ◌≡◌, ◌≢◌, ◌≤◌,
  ◌⊎◌,
}
use facetime_v.Client.Delta.{
  Pairs, pair_up, olds, news, same_run, diff_run, identical_count, chunk_size, Created, made,
  refused, stuck, push_front, delta_loop, create_delta_optimized, DeltaChunk,
}

pub same_run-le : (p : Pairs) → same_run p ≤ length p
unfolding same_run
same_run-le [] = omega arith
same_run-le ((a, b) ∷ p) = ground (arith, same_run-le p)

pub diff_run-le : (p : Pairs) → diff_run p ≤ length p
unfolding diff_run
diff_run-le [] = omega arith
diff_run-le ((a, b) ∷ p) = ground (arith, diff_run-le p)

-- On the bytes of an equal run the frames agree.
pub same_run-agrees : (p : Pairs) → olds (take (same_run p) p) ≡ news (take (same_run p) p)
unfolding same_run
same_run-agrees [] = refl
same_run-agrees ((a, b) ∷ p) = ground (arith, same_run-agrees p)

-- Behind an equal run stands a difference, or nothing.
pub changed_starts :
    (p : Pairs) → is_empty (drop (same_run p) p) ≡ false → 1 ≤ diff_run (drop (same_run p) p)
unfolding same_run diff_run
changed_starts [] h = cc
changed_starts ((a, b) ∷ p) h = ground (arith, changed_starts p)

identical_count-le : (p : Pairs) → identical_count p ≤ length p
unfolding identical_count
identical_count-le p =
    omega (arith, same_run-le (take (min 64 (length p)) p), length-take {0} (min 64 (length p)) p)

pub chunk_size-le : (p : Pairs) → chunk_size p ≤ length p
unfolding chunk_size
chunk_size-le p = ground (
  arith,
  diff_run-le p,
  identical_count-le (drop (diff_run p) p),
  length-drop (diff_run p) p,
  diff_run-le (drop (identical_count (drop (diff_run p) p)) (drop (diff_run p) p)),
  length-drop (identical_count (drop (diff_run p) p)) (drop (diff_run p) p),
)

pub chunk_size-ge : (p : Pairs) → diff_run p ≤ chunk_size p
unfolding chunk_size
chunk_size-ge p = ground arith

length-pair_up : (xs ys : Bytes) → length (pair_up xs ys) ≤ length ys
length-pair_up [] ys = omega arith
length-pair_up (x ∷ xs) [] = omega arith
length-pair_up (x ∷ xs) (y ∷ ys) = omega (arith, length-pair_up xs ys)

push_front-ne-stuck : (c : DeltaChunk) (r : Created) → r ≢ stuck → push_front c r ≢ stuck
push_front-ne-stuck c (made ds) h e = cc
push_front-ne-stuck c refused h e = cc
push_front-ne-stuck c stuck h e = h refl

delta_loop-ends :
    (fuel t i : ℕ) (p : Pairs) (total : ℕ) → length p < fuel → delta_loop fuel t i p total ≢ stuck
unfolding delta_loop
delta_loop-ends zero t i p total h = absurd (omega arith)
delta_loop-ends (suc fuel) t i p total h =
    let changed = drop (same_run p) p in
    elim (Bool-cases (is_empty changed)) [
      | inl done ↦ rw done (λ e. cc)
      | inr more ↦ elim (Bool-cases (leb t (total + (chunk_size changed + 8)))) [
        | inl big ↦ rw (more, big) (λ e. cc)
        | inr small ↦
            rw (more, small)
              (push_front-ne-stuck _ _ (
                delta_loop-ends fuel t _ (drop (chunk_size changed) changed) _ (
                  omega (
                    arith,
                    length-drop (chunk_size changed) changed,
                    length-drop (same_run p) p,
                    chunk_size-ge changed,
                    diff_run-le changed,
                    changed_starts p more,
                  ))))
      ]
    ]

-- The search for differences ends on every two frames, whatever the threshold.
pub create-ne-stuck :
    (threshold : ℕ → ℕ) (old_frame new_frame : Bytes)
    → create_delta_optimized threshold old_frame new_frame ≢ stuck
unfolding create_delta_optimized
create-ne-stuck threshold old_frame new_frame =
    elim (Bool-cases (length old_frame == length new_frame)) [
      | inl same_length ↦ rw same_length (
          delta_loop-ends (suc (length new_frame)) (threshold (length new_frame)) 0
            (pair_up old_frame new_frame) 0 (omega (arith, length-pair_up old_frame new_frame)))
      | inr differ ↦ rw differ (λ e. cc)
    ]

-- One round of the loop that made a delta: it was the last one, or it made the first chunk.
abbrev pub Round : ℕ → ℕ → ℕ → Pairs → ℕ → List DeltaChunk → Type 0
Round fuel t i p total ds =
    ((drop (same_run p) p ≡ []) × (ds ≡ []))
    ⊎ ((rest : List DeltaChunk) × (ds
          ≡ record {
            offset = as_u32 (i + same_run p);
            bytes = take (chunk_size (drop (same_run p) p)) (news (drop (same_run p) p));
          }
            ∷ rest)
        × (1 ≤ chunk_size (drop (same_run p) p))
        × (delta_loop fuel t (i + same_run p + chunk_size (drop (same_run p) p))
              (drop (chunk_size (drop (same_run p) p)) (drop (same_run p) p))
              (total + (chunk_size (drop (same_run p) p) + 8))
            ≡ made rest))

pub push_front-made :
    (c : DeltaChunk) (r : Created) (ds : List DeltaChunk)
    → push_front c r ≡ made ds
    → (rest : List DeltaChunk) × (ds ≡ c ∷ rest) × (r ≡ made rest)
push_front-made c (made rest) ds h = (rest, cc, refl)
push_front-made c refused ds h = cc
push_front-made c stuck ds h = cc

is_empty→nil : (p : Pairs) → is_empty p ≡ true → p ≡ []
is_empty→nil [] h = refl
is_empty→nil (x ∷ p) h = cc

pub delta_loop-made :
    (fuel t i : ℕ) (p : Pairs) (total : ℕ) (ds : List DeltaChunk)
    → delta_loop (suc fuel) t i p total ≡ made ds
    → Round fuel t i p total ds
unfolding delta_loop
delta_loop-made fuel t i p total ds h =
    let changed = drop (same_run p) p in
    elim (Bool-cases (is_empty changed)) [
      | inl done ↦ inl (is_empty→nil changed done, cc (rw done at h))
      | inr more ↦ elim (Bool-cases (leb t (total + (chunk_size changed + 8)))) [
        | inl big ↦ cc (rw big at (rw more at h))
        | inr small ↦
            let (rest, e, e') = push_front-made _ _ ds (rw small at (rw more at h)) in
            inr (rest, e, omega (arith, chunk_size-ge changed, changed_starts p more), e')
      ]
    ]
