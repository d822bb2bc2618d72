-- ===== src/TunnelsPage/Laws/Paging.antt =====
-- The pages of the list.
use omni_tun.Prelude.{
  ℕ, min, zero, suc, ◌+◌, ◌-◌, ◌*◌, ◌<◌, ◌≤◌, true, false, ◌≡◌, refl, ap, sym, ◌∙◌, ◌↔◌, List, [],
  ◌∷◌, ◌++◌, length, take, drop, arith, length-take,
}
use omni_tun.TunnelsPage.Listing.{page_size, paginated, has_more}

module _ {ℓ} {A : Type ℓ} where
  length-drop : (n : ℕ) (l : List A) → length (drop n l) ≡ length l - n
  length-drop zero l = omega arith
  length-drop (suc n) [] = omega arith
  length-drop (suc n) (x ∷ l) = omega (arith, length-drop n l)

  take-nil : (n : ℕ) → ◌≡◌ {A = List A} (take n []) []
  take-nil zero = refl
  take-nil (suc n) = refl

  take-add : (m n : ℕ) (l : List A) → take (m + n) l ≡ take m l ++ take n (drop m l)
  take-add zero n l = let e : 0 + n ≡ n = omega arith in ap (λ k. take k l) e
  take-add (suc m) n [] = take-nil (suc m + n) ∙ sym (take-nil n)
  take-add (suc m) n (x ∷ l) =
      let e : suc m + n ≡ suc (m + n) = omega arith in
      ap (λ k. take k (x ∷ l)) e ∙ ap (λ r. x ∷ r) (take-add m n l)

  take-all : (n : ℕ) (l : List A) → length l ≤ n → take n l ≡ l
  take-all zero [] h = refl
  take-all zero (x ∷ l) h = absurd (omega arith)
  take-all (suc n) [] h = refl
  take-all (suc n) (x ∷ l) h = ap (λ r. x ∷ r) (take-all n l (omega arith))

  -- The first `n` pages, one after the other.
  abbrev pub first_pages : ℕ → List A → List A
  first_pages zero l = []
  first_pages (suc n) l = first_pages n l ++ paginated n l

  first_pages_lem : (n : ℕ) (l : List A) → first_pages n l ≡ take (n * page_size) l
  unfolding paginated
  first_pages_lem zero l = refl
  first_pages_lem (suc n) l =
      let count : n * page_size + page_size ≡ suc n * page_size = omega arith in
      ap (λ r. r ++ paginated n l) (first_pages_lem n l)
      ∙ sym (take-add (n * page_size) page_size l)
      ∙ ap (λ k. take k l) count

  length-next_page :
      (page : ℕ) (l : List A)
      → length (paginated (suc page) l) ≡ min page_size (length l - suc page * page_size)
  unfolding paginated
  length-next_page page l =
      length-take page_size (drop (suc page * page_size) l)
      ∙ ap (λ k. min page_size k) (length-drop (suc page * page_size) l)

  -- There is a next page exactly when it shows something; and the pages up to the last one show the
  -- list, each tunnel once and in order.
  pub has_more_lem :
      (page : ℕ) (l : List A)
      → ((has_more page l ≡ true) ↔ (0 < length (paginated (suc page) l)))
        × (has_more page l ≡ false → first_pages (suc page) l ≡ l)
  unfolding has_more
  has_more_lem page l =
      let shown = length-next_page page l in
      (
        (λ h. ground (arith, shown, h), λ h. ground (arith, shown, h)),
        λ h. first_pages_lem (suc page) l ∙ take-all (suc page * page_size) l (ground (arith, h)),
      )
