-- ===== src/Account/Invitation/Slices.antt =====
-- Slices of bytes that are joined from parts, for rust/src/api/account_envelope/invitation.rs.
use openmls_dart.Prelude.{
  ℕ, zero, suc, ◌+◌, ◌≡◌, refl, ap, sym, ◌∙◌, [], ◌∷◌, ◌++◌, length, take, drop, Bytes, take-append,
  take-append-drop, arith,
}

pub take_exact : (n : ℕ) (xs ys : Bytes) → length xs ≡ n → take n (xs ++ ys) ≡ xs
take_exact n xs ys h = ap (λ (k : ℕ). take k (xs ++ ys)) (sym h) ∙ take-append xs ys

pub take_whole : (n : ℕ) (xs : Bytes) → length xs ≡ n → take n xs ≡ xs
take_whole zero [] h = refl
take_whole zero (x ∷ xs) h = absurd (omega arith)
take_whole (suc n) [] h = refl
take_whole (suc n) (x ∷ xs) h = ap (λ t. x ∷ t) (take_whole n xs (omega arith))

drop-length_add : (xs ys : Bytes) (m : ℕ) → drop (length xs + m) (xs ++ ys) ≡ drop m ys
drop-length_add [] ys m = ap (λ (j : ℕ). drop j ys) (omega arith)
drop-length_add (x ∷ xs) ys m =
    let e : suc (length xs) + m ≡ suc (length xs + m) = omega arith in
    ap (λ (j : ℕ). drop j (x ∷ (xs ++ ys))) e ∙ drop-length_add xs ys m

pub drop_over :
    (n m k : ℕ) (xs ys : Bytes) → length xs ≡ n → n + m ≡ k → drop k (xs ++ ys) ≡ drop m ys
drop_over n m k xs ys h e =
    ap (λ (j : ℕ). drop j (xs ++ ys)) (sym e ∙ ap (λ (i : ℕ). i + m) (sym h))
    ∙ drop-length_add xs ys m

drop-nil : (n : ℕ) → drop {A = ℕ} n [] ≡ []
drop-nil zero = refl
drop-nil (suc n) = refl

pub drop-drop : (n m k : ℕ) (xs : Bytes) → n + m ≡ k → drop m (drop n xs) ≡ drop k xs
drop-drop zero m k xs e = ap (λ (j : ℕ). drop j xs) (omega arith)
drop-drop (suc n) m k [] e = drop-nil m ∙ sym (drop-nil k)
drop-drop (suc n) m k (x ∷ xs) e =
    let f : suc (n + m) ≡ k = omega arith in
    drop-drop n m (n + m) xs refl ∙ ap (λ (j : ℕ). drop j (x ∷ xs)) f

-- A slice and what follows it.
pub slice_then : (n m k : ℕ) (xs : Bytes) → n + m ≡ k → take m (drop n xs) ++ drop k xs ≡ drop n xs
slice_then n m k xs e =
    ap (λ t. take m (drop n xs) ++ t) (sym (drop-drop n m k xs e)) ∙ take-append-drop m (drop n xs)
