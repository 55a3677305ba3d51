-- ===== src/Guide/Served/Cascade.antt =====
-- Which source the guide of a channel comes from.
use xtremflow.Base.{
  ℕ, ◌≡◌, refl, inl, inr, String, Bool, true, not, ◌&&◌, Option, none, some, List, [], ◌∷◌, arith,
  if◌then◌else◌, Bool-cases, find, or_option,
}
use xtremflow.Guide.Served.{
  Shown, Choice, is_nil, has_current_programme, choose, nothing_found, programmes_with_source,
}

abbrev pub is_current : ℕ → String × List Shown → Bool
is_current now e = not (is_nil e.1) && has_current_programme now e.1

abbrev pub is_filled : String × List Shown → Bool
is_filled e = not (is_nil e.1)

abbrev pub chosen : Option (String × List Shown) → Choice → Choice
chosen none c = c
chosen (some (name, ps)) c = record { programmes = ps; source = name; found = true }

chosen_either :
    (o : Option (String × List Shown)) (name : String) (ps : List Shown) (c : Choice)
    → chosen (or_option o none) (record { programmes = ps; source = name; found = true })
      ≡ chosen (or_option o (some (name, ps))) c
chosen_either none name ps c = refl
chosen_either (some e) name ps c = refl

-- The first source that is current; else, where nothing was found before, the first that is filled.
choose_rule :
    (now : ℕ) (sources : List (String × List Shown)) (c : Choice)
    → choose now sources c
      ≡ chosen
          (or_option
            (find (is_current now) sources)
            (if c.found then none else find is_filled sources))
          c
unfolding choose
choose_rule now [] c = ground arith
choose_rule now ((name, candidate) ∷ rest) c = elim (Bool-cases (is_nil candidate)) [
  | inl empty ↦ rw (empty, choose) (choose_rule now rest c)
  | inr filled ↦ elim (Bool-cases (has_current_programme now candidate)) [
    | inl current ↦ ground (arith, filled, current)
    | inr over ↦ elim (Bool-cases (c.found)) [
      | inl before ↦ ground (arith, filled, over, before, choose_rule now rest c)
      | inr first ↦
          let taken : Choice = record { programmes = candidate; source = name; found = true } in
          ground (
            arith,
            filled,
            over,
            first,
            choose_rule now rest taken,
            chosen_either (find (is_current now) rest) name candidate c,
          )
    ]
  ]
]

-- The guide comes from the first source with a programme that is not over; where none has one, from
-- the first that has any programme; and else it is empty.
pub programmes_with_source_rule :
    (now : ℕ) (panel external direct : List Shown)
    → let sources : List (String × List Shown) =
        ("panel-xmltv", panel) ∷ ("xmltv", external) ∷ ("xtream", direct) ∷ [] in
      programmes_with_source now panel external direct
      ≡ chosen (or_option (find (is_current now) sources) (find is_filled sources)) nothing_found
unfolding programmes_with_source
programmes_with_source_rule now panel external direct =
    choose_rule now (("panel-xmltv", panel) ∷ ("xmltv", external) ∷ ("xtream", direct) ∷ [])
      nothing_found
