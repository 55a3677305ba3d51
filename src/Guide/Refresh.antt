-- ===== src/Guide/Refresh.antt =====
-- What a refresh of the guide leaves.
use xtremflow.Base.{
  ℕ, ◌≡◌, refl, ap, ◌∙◌, inl, inr, String, Bool, true, false, ◌||◌, Option, none, some, List, [],
  ◌∷◌, arith, if◌then◌else◌, str_eq, str_eq_iff, lookup, insert, lookup-insert, is_some, Bool-cases,
  or_option,
}
use xtremflow.Guide.{XmltvIndex, XmltvProgramme, Service, merge, add_source, merge_all, refresh}

lookup-merge :
    (key : String) (parsed merged : XmltvIndex)
    → lookup key (merge parsed merged) ≡ or_option (lookup key merged) (lookup key parsed)
unfolding merge lookup
lookup-merge key [] merged = ground arith
lookup-merge key ((k, ps) ∷ parsed) merged =
    lookup-merge key parsed (if is_some (lookup k merged) then merged else insert k ps merged)
    ∙ elim (Bool-cases (str_eq k key)) [
      | inl same ↦
          let named : k ≡ key = (str_eq_iff k key).0 same in
          let moved : lookup k merged ≡ lookup key merged = ap (λ j. lookup j merged) named in
          ground (arith, same, moved, lookup-insert k key ps merged)
      | inr differs ↦ ground (arith, differs, lookup-insert k key ps merged)
    ]

-- The first source that lists a key.
abbrev pub first_listing : String → List (Option XmltvIndex) → Option (List XmltvProgramme)
first_listing key [] = none
first_listing key (none ∷ rest) = first_listing key rest
first_listing key (some parsed ∷ rest) = or_option (lookup key parsed) (first_listing key rest)

abbrev pub any_served : List (Option XmltvIndex) → Bool
any_served [] = false
any_served (none ∷ rest) = any_served rest
any_served (some parsed ∷ rest) = true

lookup-add_source :
    (key : String) (parsed merged : XmltvIndex)
    → lookup key (add_source parsed merged) ≡ or_option (lookup key merged) (lookup key parsed)
unfolding lookup
lookup-add_source key parsed [] = refl
lookup-add_source key parsed (e ∷ merged) = lookup-merge key parsed (e ∷ merged)

or_option_assoc :
    (a b c : Option (List XmltvProgramme))
    → or_option (or_option a b) c ≡ or_option a (or_option b c)
or_option_assoc none b c = refl
or_option_assoc (some x) b c = refl

lookup-merge_all :
    (key : String) (sources : List (Option XmltvIndex)) (merged : XmltvIndex) (ok : Bool)
    → (lookup key (merge_all sources merged ok).0
        ≡ or_option (lookup key merged) (first_listing key sources))
      × ((merge_all sources merged ok).1 ≡ ok || any_served sources)
unfolding merge_all
lookup-merge_all key [] merged ok = (ground arith, ground arith)
lookup-merge_all key (none ∷ rest) merged ok = lookup-merge_all key rest merged ok
lookup-merge_all key (some parsed ∷ rest) merged ok =
    let (found, served) = lookup-merge_all key rest (add_source parsed merged) true in
    (
      found
          ∙ (ap (λ o. or_option o (first_listing key rest)) (lookup-add_source key parsed merged)
              ∙ or_option_assoc (lookup key merged) (lookup key parsed) (first_listing key rest)),
      ground (arith, served),
    )

-- After a refresh a channel has the programmes of the first source that lists it; where no source
-- answers, the guide stays as it was.
pub lookup-refresh :
    (key : String) (sources : List (Option XmltvIndex)) (now : ℕ) (s : Service)
    → lookup key (refresh sources now s).index
      ≡ (if any_served sources then first_listing key sources else lookup key s.index)
unfolding refresh lookup
lookup-refresh key sources now s =
    let (found, served) = lookup-merge_all key sources [] false in ground (arith, found, served)
