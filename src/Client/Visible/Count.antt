-- ===== src/Client/Visible/Count.antt =====
-- frame.rs: counting the columns of a line that is put together.
use facetime_v.Base.{All, Bytes, [], ap, arith, refl, ℕ, ◌++◌, ◌+◌, ◌<◌, ◌∙◌, ◌∷◌, ◌≡◌, ◌≢◌}
use facetime_v.Client.Visible.{Scan, skip, escape, advance, begins, count_from, count_visible_chars}

-- Where the scan is after some bytes.
unfoldable pub scan_after : Scan → Bytes → Scan
scan_after scan [] = scan
scan_after scan (b ∷ rest) = scan_after (advance scan b) rest

count_from-append :
    (scan : Scan) (xs ys : Bytes)
    → count_from scan (xs ++ ys) ≡ count_from scan xs + count_from (scan_after scan xs) ys
unfolding count_from scan_after
count_from-append scan [] ys = omega arith
count_from-append scan (b ∷ xs) ys = omega (arith, count_from-append (advance scan b) xs ys)

scan_after-append :
    (scan : Scan) (xs ys : Bytes) → scan_after scan (xs ++ ys) ≡ scan_after (scan_after scan xs) ys
unfolding scan_after
scan_after-append scan [] ys = refl
scan_after-append scan (b ∷ xs) ys = scan_after-append (advance scan b) xs ys

-- Bytes that take `n` columns and end between two characters.
pub record Takes (n : ℕ) (s : Bytes) : Type 0 where
  pub count : count_from (skip 0) s ≡ n
  pub whole : scan_after (skip 0) s ≡ skip 0

pub Takes-nil : Takes 0 []
unfolding count_from scan_after
Takes-nil = record { count = refl; whole = refl }

pub Takes-append : (n k : ℕ) (s t : Bytes) → Takes n s → Takes k t → Takes (n + k) (s ++ t)
Takes-append n k s t hs ht = record {
  count =
      count_from-append (skip 0) s t
      ∙ ap (λ (z : Scan). count_from (skip 0) s + count_from z t) hs.whole
      ∙ omega (arith, hs.count, ht.count);
  whole = scan_after-append (skip 0) s t ∙ ap (λ (z : Scan). scan_after z t) hs.whole ∙ ht.whole;
}

pub Takes-visible : (n : ℕ) (s : Bytes) → Takes n s → count_visible_chars s ≡ n
unfolding count_visible_chars
Takes-visible n s h = h.count

-- An ASCII character.
pub Takes-char : (b : ℕ) → b < 128 → b ≢ 27 → Takes 1 (b ∷ [])
unfolding count_from scan_after advance begins
Takes-char b lt ne = record { count = ground arith; whole = ground arith }

-- A colour code: an escape, bytes other than an `m`, and an `m`.
escape-whole :
    (s : Bytes)
    → All (λ (b : ℕ). b ≢ b'm') s
    → (count_from escape (s ++ b'm' ∷ []) ≡ 0) × (scan_after escape (s ++ b'm' ∷ []) ≡ skip 0)
unfolding count_from scan_after advance begins
escape-whole [] h = (refl, refl)
escape-whole (b ∷ s) h =
    let (c, w) = escape-whole s h.1 in (ground (arith, h.0, c), ground (arith, h.0, w))

pub Takes-code : (s : Bytes) → All (λ (b : ℕ). b ≢ b'm') s → Takes 0 (27 ∷ s ++ b'm' ∷ [])
unfolding count_from scan_after advance begins
Takes-code s h = let (c, w) = escape-whole s h in record { count = omega (arith, c); whole = w }
