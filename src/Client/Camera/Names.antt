-- ===== src/Client/Camera/Names.antt =====
-- camera.rs: the names that `is_valid_camera_name` accepts.
use facetime_v.Base.{
  ==_iff, Bool, Bool-cases, Bytes, List, Option, Option-cases, [], any, arith, bytes_instance,
  decimal, inl, inr, leb, ltb, nat_instance, none, refl, same, same_iff, some, suc, text, true,
  zero, ℕ, ◌&&◌, ◌++◌, ◌+◌, ◌<◌, ◌==◌, ◌∷◌, ◌≡◌, ◌≤◌, ◌⊎◌,
}
use facetime_v.Client.Camera.{
  ℤ, pos, negsuc, CameraCapture, real, test, spiral_tunnel, vortex_grid, diamond_flow,
  find_test_mode, new_camera, parse_i32, opened_cameras, test_cameras, list_available_cameras,
  is_valid_index, is_valid_camera_name, IsUsable, test_modes,
}

-- A one-digit index is what its own name is read as.
parse_i32-decimal : (j : ℕ) → j < 10 → parse_i32 (decimal j) ≡ some (pos j)
unfolding parse_i32 decimal
parse_i32-decimal zero h = refl
parse_i32-decimal (suc zero) h = refl
parse_i32-decimal (suc (suc zero)) h = refl
parse_i32-decimal (suc (suc (suc zero))) h = refl
parse_i32-decimal (suc (suc (suc (suc zero)))) h = refl
parse_i32-decimal (suc (suc (suc (suc (suc zero))))) h = refl
parse_i32-decimal (suc (suc (suc (suc (suc (suc zero)))))) h = refl
parse_i32-decimal (suc (suc (suc (suc (suc (suc (suc zero))))))) h = refl
parse_i32-decimal (suc (suc (suc (suc (suc (suc (suc (suc zero)))))))) h = refl
parse_i32-decimal (suc (suc (suc (suc (suc (suc (suc (suc (suc zero))))))))) h = refl
parse_i32-decimal (suc (suc (suc (suc (suc (suc (suc (suc (suc (suc j)))))))))) h =
    absurd (omega arith)

-- What a name is read as decides its index.
index_unique :
    (camera name : Bytes) (n k : ℕ)
    → name ≡ camera
    → parse_i32 name ≡ some (pos k)
    → parse_i32 camera ≡ some (pos n)
    → n ≡ k
index_unique camera name n k e pk pn = cc

any-append :
    (p : Bytes → Bool) (xs ys : List Bytes)
    → any p (xs ++ ys) ≡ true
    → (any p xs ≡ true) ⊎ (any p ys ≡ true)
any-append p [] ys h = inr h
any-append p (x ∷ xs) ys h = elim (Bool-cases (p x)) [
  | inl e ↦ inl (rw e refl)
  | inr e ↦ elim (any-append p xs ys (cc (rw e at h))) [ inl hx ↦ inl (rw e hx) | inr hy ↦ inr hy ]
]

module _ (opens : ℕ → Bool) (camera : Bytes) where
  abbrev IsListed : List Bytes → Type 0
  IsListed names = any (λ name. same name camera) names ≡ true

  -- A listed camera that is not a test camera was opened.
  opened_cameras-opens :
      (k i : ℕ)
      → IsListed (opened_cameras opens i k)
      → (j : ℕ) × (j < i + k) × (opens j ≡ true) × (decimal j ≡ camera)
  unfolding opened_cameras
  opened_cameras-opens zero i h = cc
  opened_cameras-opens (suc k) i h = elim (Bool-cases (opens i)) [
    | inl o ↦ elim (Bool-cases (same (decimal i) camera)) [
      | inl e ↦ (i, omega arith, o, (same_iff (decimal i) camera).0 e)
      | inr e ↦
          let (j, lt, oj, ej) = opened_cameras-opens k (i + 1) (cc (rw (o, e) at h)) in
          (j, omega arith, oj, ej)
    ]
    | inr o ↦
        let (j, lt, oj, ej) = opened_cameras-opens k (i + 1) (cc (rw o at h)) in
        (j, omega arith, oj, ej)
  ]

  new_camera-opened :
      (n : ℕ) → opens n ≡ true → (capture : CameraCapture) × (new_camera opens n ≡ some capture)
  unfolding new_camera
  new_camera-opened n o = elim (Option-cases (find_test_mode n 0 test_modes)) [
    | inl e ↦ (real n, ground (arith, e, o))
    | inr (mode, e) ↦ (test mode, ground (arith, e))
  ]

  new_camera-test :
      (n : ℕ) → 10 ≤ n → n < 13 → (capture : CameraCapture) × (new_camera opens n ≡ some capture)
  unfolding new_camera find_test_mode
  new_camera-test n lo hi = elim (Bool-cases (n == 10)) [
    | inl e ↦ (test spiral_tunnel, ground (arith, e))
    | inr e ↦ elim (Bool-cases (n == 11)) [
      | inl e' ↦ (test vortex_grid, ground (arith, e, e'))
      | inr e' ↦ (test diamond_flow, ground (arith, e, e'))
    ]
  ]

  listed-test :
      (n : ℕ)
      → parse_i32 camera ≡ some (pos n)
      → IsListed (test_cameras 0 test_modes)
      → (capture : CameraCapture) × (new_camera opens n ≡ some capture)
  unfolding test_cameras
  listed-test n p h = elim (Bool-cases (same (decimal 10) camera)) [
    | inl e ↦
        let e' =
          index_unique camera (decimal 10) n 10 ((same_iff (decimal 10) camera).0 e)
            (unfold parse_i32 decimal in refl) p in
        new_camera-test n (omega arith) (omega arith)
    | inr e ↦ elim (Bool-cases (same (decimal 11) camera)) [
      | inl f ↦
          let e' =
            index_unique camera (decimal 11) n 11 ((same_iff (decimal 11) camera).0 f)
              (unfold parse_i32 decimal in refl) p in
          new_camera-test n (omega arith) (omega arith)
      | inr f ↦ elim (Bool-cases (same (decimal 12) camera)) [
        | inl g ↦
            let e' =
              index_unique camera (decimal 12) n 12 ((same_iff (decimal 12) camera).0 g)
                (unfold parse_i32 decimal in refl) p in
            new_camera-test n (omega arith) (omega arith)
        | inr g ↦ absurd (ground (arith, e, f, g, h))
      ]
    ]
  ]

  listed-IsUsable :
      (n : ℕ)
      → parse_i32 camera ≡ some (pos n)
      → IsListed (list_available_cameras opens)
      → IsUsable opens n
  unfolding list_available_cameras test_cameras
  listed-IsUsable n p h = elim (Bool-cases (same (text "0") camera)) [
    | inl e ↦ inl (
        index_unique camera (text "0") n 0 ((same_iff (text "0") camera).0 e)
          (unfold parse_i32 in refl) p)
    | inr e ↦
        elim (any-append (λ name. same name camera) (opened_cameras opens 1 9)
          (test_cameras 0 test_modes) (cc (rw e at h))) [
            | inl ho ↦
                let (j, lj, oj, ej) = opened_cameras-opens 9 1 ho in
                let e' = index_unique camera (decimal j) n j ej (parse_i32-decimal j lj) p in
                inr (new_camera-opened n (rw e' oj))
            | inr ht ↦ inr (listed-test n p ht)
          ]
  ]

  valid_index-IsUsable :
      (o : Option ℤ)
      → parse_i32 camera ≡ o
      → is_valid_index opens camera o ≡ true
      → (n : ℕ) × (o ≡ some (pos n)) × IsUsable opens n
  unfolding is_valid_index
  valid_index-IsUsable none p h = cc
  valid_index-IsUsable (some (negsuc n)) p h = cc
  valid_index-IsUsable (some (pos n)) p h = elim (Bool-cases (n == 0)) [
    | inl z ↦ (n, refl, inl ((==_iff n 0).0 z))
    | inr z ↦ elim (Bool-cases (leb 10 n && ltb n 13)) [
      | inl t ↦ (n, refl, inr (new_camera-test n (ground (arith, t)) (ground (arith, t))))
      | inr t ↦ (n, refl, listed-IsUsable n p (cc (rw (z, t) at h)))
    ]
  ]

-- A name that is accepted is read as an index, and as one that is 0 or that can be opened.
pub is_valid_camera_name-IsUsable :
    (opens : ℕ → Bool) (camera : Bytes)
    → is_valid_camera_name opens camera ≡ true
    → (n : ℕ) × (parse_i32 camera ≡ some (pos n)) × IsUsable opens n
unfolding is_valid_camera_name
is_valid_camera_name-IsUsable opens camera h =
    valid_index-IsUsable opens camera (parse_i32 camera) refl h
