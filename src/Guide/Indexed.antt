-- ===== src/Guide/Indexed.antt =====
-- What the index of the guide holds.
use xtremflow.Base.{
  ℕ, ◌<◌, ◌≡◌, refl, sym, inl, inr, String, Bool, true, false, not, ◌&&◌, ◌||◌, Option, none, some,
  List, [], ◌∷◌, arith, if◌then◌else◌, str_eq, ltb, lookup, insert, is_some, Bool-cases, All,
  All-append, All-sort_by_key, sort_by_key-IsSorted, IsSorted, some-value, some-ne-none, subst,
}
use xtremflow.Guide.{XmltvProgramme, XmltvIndex, Names}
use xtremflow.Guide.Parse.{
  TextTag, title, desc, sub_title, category, display_name, Element, channel, programme, text_of,
  mark_new, mark_live, mark_premiere, mark_shown, other, Attrs, Event, begins, text, ends, Parser,
  new_parser, begin, push_text, end_channel, keep, listed, push, add_alias, made, end_programme,
  finish, step, run, sorted, apply, parse,
}

module _ (Q : List XmltvProgramme → Type 0) where
  abbrev pub Every : XmltvIndex → Type 0
  Every = All (λ (e : String × List XmltvProgramme). Q e.1)

  insert-Every :
      (key : String) (ps : List XmltvProgramme) (index : XmltvIndex)
      → Q ps
      → Every index
      → Every (insert key ps index)
  unfolding insert
  insert-Every key ps [] q h = (q, tt)
  insert-Every key ps ((k, old) ∷ index) q (p, h) = elim (Bool-cases (str_eq k key)) [
    | inl same ↦ rw same (q, h)
    | inr differs ↦ rw differs (p, insert-Every key ps index q h)
  ]

  pub lookup-Every :
      (key : String) (index : XmltvIndex) (ps : List XmltvProgramme)
      → Every index
      → lookup key index ≡ some ps
      → Q ps
  unfolding lookup
  lookup-Every key [] ps h e = absurd (some-ne-none (sym e))
  lookup-Every key ((k, old) ∷ index) ps (q, h) e = elim (Bool-cases (str_eq k key)) [
    | inl same ↦ subst Q (some-value (rw same at e)) q
    | inr differs ↦ lookup-Every key index ps h (rw differs at e)
  ]

  Every-if : (b : Bool) (m n : XmltvIndex) → Every m → Every n → Every (if b then m else n)
  Every-if true m n h k = h
  Every-if false m n h k = k

  add_alias-Every :
      (name id : String) (index : XmltvIndex) (found : Option (List XmltvProgramme))
      → lookup id index ≡ found
      → Every index
      → Every (add_alias name found index)
  add_alias-Every name id index none e h = h
  add_alias-Every name id index (some ps) e h =
      Every-if (is_some (lookup name index)) index _ h
        (insert-Every name ps index (lookup-Every id index ps h e) h)

  pub apply-Every :
      (aliases : List (String × String)) (index : XmltvIndex)
      → Every index
      → Every (apply aliases index)
  unfolding apply
  apply-Every [] index h = h
  apply-Every ((name, id) ∷ aliases) index h =
      apply-Every aliases (add_alias name (lookup id index) index)
        (add_alias-Every name id index (lookup id index) refl h)

-- The programmes of the window, in the order of their starts.
abbrev pub InWindow : ℕ → ℕ → XmltvProgramme → Type 0
InWindow cutoff limit p = (cutoff < p.stop) × (p.start < limit)

abbrev pub Listed : ℕ → ℕ → List XmltvProgramme → Type 0
Listed cutoff limit ps =
    All (InWindow cutoff limit) ps × IsSorted (λ (p : XmltvProgramme). p.start) ps

module _ (cutoff limit : ℕ) where
  abbrev Windowed : XmltvIndex → Type 0
  Windowed = Every (All (InWindow cutoff limit))

  listed-Windowed :
      (key : String) (index : XmltvIndex) (found : Option (List XmltvProgramme))
      → lookup key index ≡ found
      → Windowed index
      → All (InWindow cutoff limit) (listed found)
  listed-Windowed key index none e h = tt
  listed-Windowed key index (some ps) e h =
      lookup-Every (All (InWindow cutoff limit)) key index ps h e

  push-Windowed :
      (key : String) (p : XmltvProgramme) (index : XmltvIndex)
      → InWindow cutoff limit p
      → Windowed index
      → Windowed (push key p index)
  push-Windowed key p index w h =
      insert-Every (All (InWindow cutoff limit)) key _ index
        (All-append (InWindow cutoff limit) (listed (lookup key index)) (p ∷ [])
          (listed-Windowed key index (lookup key index) refl h) (w, tt))
        h

  sorted-Listed : (index : XmltvIndex) → Windowed index → Every (Listed cutoff limit) (sorted index)
  sorted-Listed [] h = tt
  sorted-Listed ((key, ps) ∷ index) (w, h) = (
    (
      All-sort_by_key (λ (p : XmltvProgramme). p.start) (InWindow cutoff limit) ps w,
      sort_by_key-IsSorted (λ (p : XmltvProgramme). p.start) ps,
    ),
    sorted-Listed index h,
  )

  module _ (nm : Names) where
    keep-Windowed :
        (raw : Option String) (start stop : Option ℕ) (ps : Parser)
        → Windowed ps.by_channel
        → Windowed (keep nm cutoff limit raw start stop ps).by_channel
    keep-Windowed none start stop ps h = h
    keep-Windowed (some raw) none stop ps h = h
    keep-Windowed (some raw) (some start) none ps h = h
    keep-Windowed (some raw) (some start) (some stop) ps h =
        elim (Bool-cases
          (not (ltb cutoff stop && ltb start limit) || str_eq (nm.normalize_key raw) "")) [
            | inl out ↦ rw out h
            | inr kept ↦ rw kept (
                push-Windowed (nm.normalize_key raw) (made nm cutoff limit ps start stop)
                  ps.by_channel (ground (arith, kept), ground (arith, kept)) h)
          ]

    begin-by_channel :
        (e : Element) (a : Attrs) (ps : Parser) → (begin e a ps).by_channel ≡ ps.by_channel
    unfolding begin
    begin-by_channel channel a ps = refl
    begin-by_channel programme a ps = refl
    begin-by_channel (text_of title) a ps = refl
    begin-by_channel (text_of desc) a ps = refl
    begin-by_channel (text_of sub_title) a ps = refl
    begin-by_channel (text_of category) a ps = refl
    begin-by_channel (text_of display_name) a ps = refl
    begin-by_channel mark_new a ps = refl
    begin-by_channel mark_live a ps = refl
    begin-by_channel mark_premiere a ps = refl
    begin-by_channel mark_shown a ps = refl
    begin-by_channel other a ps = refl

    push_text-by_channel :
        (s : String) (tag : Option TextTag) (ps : Parser)
        → (push_text s tag ps).by_channel ≡ ps.by_channel
    unfolding push_text
    push_text-by_channel s none ps = refl
    push_text-by_channel s (some title) ps = refl
    push_text-by_channel s (some desc) ps = refl
    push_text-by_channel s (some sub_title) ps = refl
    push_text-by_channel s (some category) ps = refl
    push_text-by_channel s (some display_name) ps = refl

    finish-Windowed :
        (e : Element) (ps : Parser)
        → Windowed ps.by_channel
        → Windowed (finish nm cutoff limit e ps).by_channel
    unfolding finish end_channel end_programme
    finish-Windowed channel ps h = h
    finish-Windowed programme ps h = keep-Windowed ps.programme_channel ps.start ps.stop ps h
    finish-Windowed (text_of title) ps h = h
    finish-Windowed (text_of desc) ps h = h
    finish-Windowed (text_of sub_title) ps h = h
    finish-Windowed (text_of category) ps h = h
    finish-Windowed (text_of display_name) ps h = h
    finish-Windowed mark_new ps h = h
    finish-Windowed mark_live ps h = h
    finish-Windowed mark_premiere ps h = h
    finish-Windowed mark_shown ps h = h
    finish-Windowed other ps h = h

    step-Windowed :
        (e : Event) (ps : Parser)
        → Windowed ps.by_channel
        → Windowed (step nm cutoff limit e ps).by_channel
    unfolding step
    step-Windowed (begins e a true) ps h = subst Windowed (sym (begin-by_channel e a ps)) h
    step-Windowed (begins e a false) ps h = subst Windowed (sym (begin-by_channel e a ps)) h
    step-Windowed (text s) ps h = subst Windowed (sym (push_text-by_channel s ps.current_tag ps)) h
    step-Windowed (ends e) ps h = finish-Windowed e ps h

    run-Windowed :
        (es : List Event) (ps : Parser)
        → Windowed ps.by_channel
        → Windowed (run nm cutoff limit es ps).by_channel
    unfolding run
    run-Windowed [] ps h = h
    run-Windowed (e ∷ es) ps h = run-Windowed es _ (step-Windowed e ps h)

-- Under whichever key or alias a channel is found, its programmes end after the cutoff, start before
-- the limit, and stand in the order of their starts.
pub parse-Listed :
    (nm : Names) (cutoff limit : ℕ) (es : List Event) (key : String) (ps : List XmltvProgramme)
    → lookup key (parse nm cutoff limit es) ≡ some ps
    → Listed cutoff limit ps
unfolding parse
parse-Listed nm cutoff limit es key ps found =
    let done = run nm cutoff limit es new_parser in
    lookup-Every (Listed cutoff limit) key (apply done.aliases (sorted done.by_channel)) ps
      (apply-Every (Listed cutoff limit) done.aliases (sorted done.by_channel) (
        sorted-Listed cutoff limit done.by_channel (run-Windowed cutoff limit nm es new_parser tt)))
      found
