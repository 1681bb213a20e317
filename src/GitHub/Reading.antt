-- ===== src/GitHub/Reading.antt =====
-- What a match of `githubURLPattern` of internal/app/router/funcs_github.go consists of.
use mathlib.Core.Path.{subst}
use trello_openclaw_webhook.Prelude.{
  ℕ, ◌≡◌, ◌≢◌, refl, ap, sym, ◌∙◌, Bool, true, Option, none, some, [], ◌∷◌, ◌++◌, Str, bytes, ◌==◌,
  nat_eq_iff, All, arith, Bool-cases, eq_iff, inl, inr, ◌⊎◌,
}
use trello_openclaw_webhook.GitHub.{
  Parts, name_byte, digit, span, after_literal, with_number, with_item, with_repo, after_owner,
  with_owner,
}

abbrev pub IsAll : (ℕ → Bool) → Str → Type 0
IsAll test s = All (λ c. test c ≡ true) s

span_lem :
    (test : ℕ → Bool) (s : Str)
    → (s ≡ (span test s).0 ++ (span test s).1) × IsAll test (span test s).0
unfolding span
span_lem test [] = (refl, tt)
span_lem test (c ∷ s) = elim (Bool-cases (test c)) [
  | inl passes ↦
      let (split, all) = span_lem test s in rw passes (ap (λ t. c ∷ t) split, (passes, all))
  | inr stops ↦ rw stops (refl, tt)
]

pub after_literal-append :
    (literal s rest : Str) → after_literal literal s ≡ some rest → s ≡ literal ++ rest
unfolding after_literal
after_literal-append [] s rest h = ground arith
after_literal-append (a ∷ literal) [] rest h = absurd (ground arith)
after_literal-append (a ∷ literal) (b ∷ s) rest h =
    ground (arith, after_literal-append literal s rest, nat_eq_iff a b)

-- A part whose bytes all pass a test, and there is one.
abbrev pub IsPart : (ℕ → Bool) → Str → Type 0
IsPart test s = (s ≢ []) × IsAll test s

number_read :
    (scheme owner repo item s : Str) (m : Parts)
    → with_number scheme owner repo item (span digit s) ≡ some m
    → (rest : Str) × (s ≡ m.number ++ rest)
      × IsPart digit m.number
      × (m.scheme ≡ scheme)
      × (m.owner ≡ owner)
      × (m.repo ≡ repo)
      × (m.item ≡ item)
number_read scheme owner repo item s m h =
    let (split, all) = span_lem digit s in
    elim (Bool-cases ((span digit s).0 == [])) [
      | inl empty ↦ absurd (ground arith)
      | inr some_digits ↦
          let is : record {
            scheme = scheme;
            owner = owner;
            repo = repo;
            item = item;
            number = (span digit s).0;
          }
              ≡ m =
            ground arith in
          (
            (span digit s).1,
            split ∙ ap (λ (x : Parts). x.number ++ (span digit s).1) is,
            subst (λ (x : Parts). IsPart digit x.number) is
                (λ e. absurd (ground (arith, eq_iff (span digit s).0 [])), all),
            ap (λ (x : Parts). x.scheme) (sym is),
            ap (λ (x : Parts). x.owner) (sym is),
            ap (λ (x : Parts). x.repo) (sym is),
            ap (λ (x : Parts). x.item) (sym is),
          )
    ]

-- The word for an issue or a pull request, with its slashes.
abbrev pub IsItem : Str → Type 0
IsItem item = (item ≡ bytes "/issues/") ⊎ (item ≡ bytes "/pull/")

item_read :
    (scheme owner repo s : Str) (m : Parts) (issue pull : Option Str)
    → after_literal (bytes "/issues/") s ≡ issue
    → after_literal (bytes "/pull/") s ≡ pull
    → with_item scheme owner repo issue pull ≡ some m
    → (rest : Str) × (s ≡ m.item ++ (m.number ++ rest))
      × IsItem m.item
      × IsPart digit m.number
      × (m.scheme ≡ scheme)
      × (m.owner ≡ owner)
      × (m.repo ≡ repo)
item_read scheme owner repo s m (some tail) pull found missing h =
    let (rest, split, digits, of_scheme, of_owner, of_repo, of_item) =
      number_read scheme owner repo (bytes "/issues/") tail m h in
    (
      rest,
      after_literal-append (bytes "/issues/") s tail found
          ∙ (ap (λ t. bytes "/issues/" ++ t) split
              ∙ ap (λ i. i ++ (m.number ++ rest)) (sym of_item)),
      inl of_item,
      digits,
      of_scheme,
      of_owner,
      of_repo,
    )
item_read scheme owner repo s m none (some tail) missing found h =
    let (rest, split, digits, of_scheme, of_owner, of_repo, of_item) =
      number_read scheme owner repo (bytes "/pull/") tail m h in
    (
      rest,
      after_literal-append (bytes "/pull/") s tail found
          ∙ (ap (λ t. bytes "/pull/" ++ t) split ∙ ap (λ i. i ++ (m.number ++ rest)) (sym of_item)),
      inr of_item,
      digits,
      of_scheme,
      of_owner,
      of_repo,
    )
item_read scheme owner repo s m none none missing found h = absurd (ground arith)

repo_read :
    (scheme owner s : Str) (m : Parts)
    → with_repo scheme owner (span name_byte s) ≡ some m
    → (rest : Str) × (s ≡ m.repo ++ (m.item ++ (m.number ++ rest)))
      × IsPart name_byte m.repo
      × IsItem m.item
      × IsPart digit m.number
      × (m.scheme ≡ scheme)
      × (m.owner ≡ owner)
repo_read scheme owner s m h =
    let (split, all) = span_lem name_byte s in
    elim (Bool-cases ((span name_byte s).0 == [])) [
      | inl empty ↦ absurd (ground arith)
      | inr named ↦
          let (rest, tail, item, digits, of_scheme, of_owner, of_repo) =
            item_read scheme owner (span name_byte s).0 (span name_byte s).1 m
              (after_literal (bytes "/issues/") (span name_byte s).1)
              (after_literal (bytes "/pull/") (span name_byte s).1) refl refl (ground arith) in
          (
            rest,
            split
                ∙ (ap (λ t. (span name_byte s).0 ++ t) tail
                    ∙ ap (λ r. r ++ (m.item ++ (m.number ++ rest))) (sym of_repo)),
            subst (IsPart name_byte) (sym of_repo)
                (λ e. absurd (ground (arith, eq_iff (span name_byte s).0 [])), all),
            item,
            digits,
            of_scheme,
            of_owner,
          )
    ]

pub owner_read :
    (scheme s : Str) (m : Parts)
    → with_owner scheme (span name_byte s) ≡ some m
    → (rest : Str) × (s ≡ m.owner ++ (bytes "/" ++ (m.repo ++ (m.item ++ (m.number ++ rest)))))
      × IsPart name_byte m.owner
      × IsPart name_byte m.repo
      × IsItem m.item
      × IsPart digit m.number
      × (m.scheme ≡ scheme)
owner_read scheme s m h =
    let (split, all) = span_lem name_byte s in
    elim (Bool-cases ((span name_byte s).0 == [])) [
      | inl empty ↦ absurd (ground arith)
      | inr named ↦
          slash_read scheme s m split
            (λ e. absurd (ground (arith, eq_iff (span name_byte s).0 [])), all)
            (after_literal (bytes "/") (span name_byte s).1) refl (ground arith)
    ]
  where
    slash_read :
        (scheme s : Str) (m : Parts)
        → s ≡ (span name_byte s).0 ++ (span name_byte s).1
        → IsPart name_byte (span name_byte s).0
        → (tail : Option Str) → after_literal (bytes "/") (span name_byte s).1 ≡ tail
        → after_owner scheme (span name_byte s).0 tail ≡ some m
        → (rest : Str) × (s ≡ m.owner ++ (bytes "/" ++ (m.repo ++ (m.item ++ (m.number ++ rest)))))
          × IsPart name_byte m.owner
          × IsPart name_byte m.repo
          × IsItem m.item
          × IsPart digit m.number
          × (m.scheme ≡ scheme)
    slash_read scheme s m split owner none found h = absurd (ground arith)
    slash_read scheme s m split owner (some tail) found h =
        let (rest, further, repo, item, digits, of_scheme, of_owner) =
          repo_read scheme (span name_byte s).0 tail m h in
        (
          rest,
          split
              ∙ (ap (λ t. (span name_byte s).0 ++ t)
                    (after_literal-append (bytes "/") (span name_byte s).1 tail found
                      ∙ ap (λ t. bytes "/" ++ t) further)
                  ∙ ap (λ o. o ++ (bytes "/" ++ (m.repo ++ (m.item ++ (m.number ++ rest)))))
                      (sym of_owner)),
          subst (IsPart name_byte) (sym of_owner) owner,
          repo,
          item,
          digits,
          of_scheme,
        )
