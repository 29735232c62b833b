-- ===== src/Client/Delta/Apply.antt =====
-- A delta that was made takes the old frame to the new one.
use facetime_v.Base.{
  Bytes, IsU32, List, [], ap, append_assoc, arith, as_u32, drop, drop-append, drop-drop, inl, inr,
  length, length-append, length-drop, length-take, refl, suc, sym, take, take-append, zero, ℕ, ◌++◌,
  ◌+◌, ◌∙◌, ◌∷◌, ◌≡◌, ◌≤◌,
}
use facetime_v.Client.Delta.{
  Pairs, olds, news, same_run, chunk_size, made, delta_loop, DeltaChunk, copy_chunk, copy_chunks,
}
use facetime_v.Client.Delta.Chunks.{delta_loop-made, same_run-le, same_run-agrees, chunk_size-le}

length-olds : (p : Pairs) → length (olds p) ≡ length p
length-olds [] = refl
length-olds ((a, b) ∷ p) = ap suc (length-olds p)

length-news : (p : Pairs) → length (news p) ≡ length p
length-news [] = refl
length-news ((a, b) ∷ p) = ap suc (length-news p)

news-take : (n : ℕ) (p : Pairs) → take n (news p) ≡ news (take n p)
news-take zero p = refl
news-take (suc n) [] = refl
news-take (suc n) ((a, b) ∷ p) = ap (λ (r : Bytes). b ∷ r) (news-take n p)

olds-split : (n : ℕ) (p : Pairs) → olds p ≡ olds (take n p) ++ olds (drop n p)
olds-split zero p = refl
olds-split (suc n) [] = refl
olds-split (suc n) ((a, b) ∷ p) = ap (λ (r : Bytes). a ∷ r) (olds-split n p)

news-split : (n : ℕ) (p : Pairs) → news p ≡ news (take n p) ++ news (drop n p)
news-split zero p = refl
news-split (suc n) [] = refl
news-split (suc n) ((a, b) ∷ p) = ap (λ (r : Bytes). b ∷ r) (news-split n p)

-- Copying over the middle of a frame.
copy_chunk_middle :
    (front mid mid' back : Bytes)
    → length mid' ≡ length mid
    → copy_chunk (record { offset = length front; bytes = mid' }) (front ++ (mid ++ back))
      ≡ front ++ (mid' ++ back)
unfolding copy_chunk
copy_chunk_middle front mid mid' back e = rw (
  take-append front (mid ++ back),
  ← drop-drop (length front) (length mid') (front ++ (mid ++ back)),
  drop-append front (mid ++ back),
  e,
  drop-append mid back,
)

-- The first chunk of a delta, over a frame whose part before `i` is done already.
first_chunk :
    (i s n : ℕ) (p : Pairs) (done : Bytes)
    → length done ≡ i
    → olds (take s p) ≡ news (take s p)
    → s ≤ length p
    → n ≤ length (drop s p)
    → copy_chunk (record { offset = i + s; bytes = take n (news (drop s p)) }) (done ++ olds p)
      ≡ (done ++ (news (take s p) ++ news (take n (drop s p)))) ++ olds (drop n (drop s p))
first_chunk i s n p done hi agree hs hn =
    let c = drop s p in
    let front = done ++ news (take s p) in
    let at_front : i + s ≡ length front =
      omega (
        arith,
        length-append done (news (take s p)),
        length-news (take s p),
        length-take {0} s p,
      ) in
    let cut : done ++ olds p ≡ front ++ (olds (take n c) ++ olds (drop n c)) =
      rw (olds-split s p, agree, olds-split n c)
        (sym (append_assoc done (news (take s p)) (olds (take n c) ++ olds (drop n c)))) in
    let same_length : length (news (take n c)) ≡ length (olds (take n c)) =
      omega (arith, length-news (take n c), length-olds (take n c)) in
    let copied =
      copy_chunk_middle front (olds (take n c)) (news (take n c)) (olds (drop n c)) same_length in
    rw (at_front, cut, news-take n c, copied)
      (sym (append_assoc front (news (take n c)) (olds (drop n c)))
        ∙ ap (λ (r : Bytes). r ++ olds (drop n c))
            (append_assoc done (news (take s p)) (news (take n c))))

-- The loop at index `i`, over a frame whose part before `i` is done already.
pub delta_loop-copies :
    (fuel t i : ℕ) (p : Pairs) (total : ℕ) (ds : List DeltaChunk) (done : Bytes)
    → length done ≡ i
    → IsU32 (i + length p)
    → delta_loop fuel t i p total ≡ made ds
    → copy_chunks ds (done ++ olds p) ≡ done ++ news p
unfolding copy_chunks
delta_loop-copies zero t i p total ds done hi fits h = unfold delta_loop in cc
delta_loop-copies (suc fuel) t i p total ds done hi fits h =
    elim (delta_loop-made fuel t i p total ds h) [
      | inl (none_left, e) ↦
          rw (e, olds-split (same_run p) p, news-split (same_run p) p, none_left, same_run-agrees p)
            refl
      | inr (rest, e, _, h') ↦
          let s = same_run p in
          let c = drop s p in
          let n = chunk_size c in
          let done' = done ++ (news (take s p) ++ news (take n c)) in
          let small : as_u32 (i + s) ≡ i + s = omega (arith, same_run-le p) in
          let reached : length done' ≡ i + s + n = omega (
            arith,
            length-append done (news (take s p) ++ news (take n c)),
            length-append (news (take s p)) (news (take n c)),
            length-news (take s p),
            length-news (take n c),
            length-take {0} s p,
            length-take {0} n c,
            same_run-le p,
            chunk_size-le c,
          ) in
          let fits' : IsU32 (i + s + n + length (drop n c)) =
            omega
              (arith, length-drop {0} s p, length-drop {0} n c, chunk_size-le c, same_run-le p) in
          let ih = delta_loop-copies fuel t (i + s + n) (drop n c) _ rest done' reached fits' h' in
          let regroup : done' ++ news (drop n c) ≡ done ++ news p =
            rw (news-split s p, news-split n c, append_assoc done, append_assoc (news (take s p)))
              refl in
          rw
            (
              e,
              small,
              first_chunk i s n p done hi (same_run-agrees p) (same_run-le p) (chunk_size-le c),
            )
            (ih ∙ regroup)
    ]
