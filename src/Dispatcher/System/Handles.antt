-- ===== src/Dispatcher/System/Handles.antt =====
-- Lists with native indices.
use trello_openclaw_webhook.Prelude.{
  ℕ, zero, suc, ◌<◌, ◌≡◌, ◌≢◌, refl, ap, Option, none, some, List, [], ◌∷◌, ◌++◌, arith, length,
  All,
}
use mathlib.Core.Path.{subst}
use mathlib.Core.Option.{some-injective}

module _ {ℓ} {A : Type ℓ} where
  abbrev pub get_elem? : List A → ℕ → Option A
  get_elem? [] i = none
  get_elem? (x ∷ xs) zero = some x
  get_elem? (x ∷ xs) (suc i) = get_elem? xs i

  -- Writes at an index; out of bounds nothing changes.
  abbrev pub update : ℕ → A → List A → List A
  update i v [] = []
  update zero v (x ∷ xs) = v ∷ xs
  update (suc i) v (x ∷ xs) = x ∷ update i v xs

  -- The list without the element at an index.
  abbrev pub take_out : ℕ → List A → List A
  take_out i [] = []
  take_out zero (x ∷ xs) = xs
  take_out (suc i) (x ∷ xs) = x ∷ take_out i xs

  pub length-update : (i : ℕ) (v : A) (xs : List A) → length (update i v xs) ≡ length xs
  length-update i v [] = refl
  length-update zero v (x ∷ xs) = refl
  length-update (suc i) v (x ∷ xs) = ap suc (length-update i v xs)

  pub get_elem?-update_self :
      (i : ℕ) (v : A) (xs : List A) → i < length xs → get_elem? (update i v xs) i ≡ some v
  get_elem?-update_self i v [] h = elim h [ ]
  get_elem?-update_self zero v (x ∷ xs) h = refl
  get_elem?-update_self (suc i) v (x ∷ xs) h = get_elem?-update_self i v xs (omega arith)

  pub get_elem?-update_ne :
      (i j : ℕ) (v : A) (xs : List A) → i ≢ j → get_elem? (update i v xs) j ≡ get_elem? xs j
  get_elem?-update_ne i j v [] h = refl
  get_elem?-update_ne zero zero v (x ∷ xs) h = absurd (h refl)
  get_elem?-update_ne zero (suc j) v (x ∷ xs) h = refl
  get_elem?-update_ne (suc i) zero v (x ∷ xs) h = refl
  get_elem?-update_ne (suc i) (suc j) v (x ∷ xs) h =
      get_elem?-update_ne i j v xs (λ e. h (ap suc e))

  pub get_elem?-lt : (xs : List A) (i : ℕ) (x : A) → get_elem? xs i ≡ some x → i < length xs
  get_elem?-lt [] i x h = absurd (ground arith)
  get_elem?-lt (y ∷ xs) zero x h = omega arith
  get_elem?-lt (y ∷ xs) (suc i) x h = omega (arith, get_elem?-lt xs i x h)

  pub get_elem?-append_left :
      (xs ys : List A) (i : ℕ) → i < length xs → get_elem? (xs ++ ys) i ≡ get_elem? xs i
  get_elem?-append_left [] ys i h = elim h [ ]
  get_elem?-append_left (x ∷ xs) ys zero h = refl
  get_elem?-append_left (x ∷ xs) ys (suc i) h = get_elem?-append_left xs ys i (omega arith)

  pub get_elem?-append_last : (xs : List A) (y : A) → get_elem? (xs ++ y ∷ []) (length xs) ≡ some y
  get_elem?-append_last [] y = refl
  get_elem?-append_last (x ∷ xs) y = get_elem?-append_last xs y

module _ {ℓ κ} {A : Type ℓ} (P : A → Type κ) where
  pub All-get : (xs : List A) (i : ℕ) (x : A) → All P xs → get_elem? xs i ≡ some x → P x
  All-get [] i x h e = absurd (ground arith)
  All-get (y ∷ xs) zero x (p, h) e = subst P (some-injective _ _ e) p
  All-get (y ∷ xs) (suc i) x (p, h) e = All-get xs i x h e

  pub All-update : (i : ℕ) (v : A) (xs : List A) → P v → All P xs → All P (update i v xs)
  All-update i v [] p h = tt
  All-update zero v (x ∷ xs) p (q, h) = (p, h)
  All-update (suc i) v (x ∷ xs) p (q, h) = (q, All-update i v xs p h)
