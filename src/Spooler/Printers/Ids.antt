-- ===== src/Spooler/Printers/Ids.antt =====
-- The identifiers of the printers are the places in their list.
use cse.Base.{
  ℕ, zero, suc, ◌+◌, ◌^◌, ◌<◌, ◌≡◌, refl, ap, ◌∙◌, true, false, Option, none, some, List, [], ◌∷◌,
  ◌++◌, ◌==◌, ltb, ◌&&◌, ◌||◌, Bool-cases, inl, inr, length, length-append, get_elem?, arith,
}
use cse.Base.Word.{is_neg}
use cse.Spooler.Printers.{
  Printer, Printers, no_printers, search_printer, insert_printer, add_printer, add_all, find_id,
  get_printer_by_id,
}

abbrev IdsFrom : ℕ → List Printer → Type 0
IdsFrom n [] = Unit
IdsFrom n (p ∷ ps) = (p.id ≡ n) × IdsFrom (suc n) ps

-- The identifiers count from 0 and fit a PRINTER_SET.
pub record IsNumbered (ps : Printers) : Type 0 where
  pub ids : IdsFrom 0 ps.head
  pub count : length ps.head ≡ ps.printer_id
  pub bound : ps.printer_id < 32

IdsFrom-append :
    (n : ℕ) (ps : List Printer) (p : Printer)
    → IdsFrom n ps
    → p.id ≡ n + length ps
    → IdsFrom n (ps ++ (p ∷ []))
IdsFrom-append n [] p h e = (e ∙ omega arith, tt)
IdsFrom-append n (q ∷ ps) p h e = (h.0, IdsFrom-append (suc n) ps p h.1 (omega arith))

find_id-below : (n i : ℕ) (ps : List Printer) → IdsFrom n ps → i < n → find_id ps i ≡ none
unfolding find_id
find_id-below n i [] h l = refl
find_id-below n i (p ∷ ps) h l = rw other (find_id-below (suc n) i ps h.1 (omega arith))
  where
    other : (p.id == i) ≡ false
    other = ground (arith, h.0)

find_id-get_elem? :
    (n i : ℕ) (ps : List Printer) → IdsFrom n ps → find_id ps (n + i) ≡ get_elem? ps i
unfolding find_id
find_id-get_elem? n i [] h = refl
find_id-get_elem? n zero (p ∷ ps) h = rw here refl
  where
    here : (p.id == n + 0) ≡ true
    here = ground (arith, h.0)
find_id-get_elem? n (suc i) (p ∷ ps) h =
    rw other (ap (find_id ps) (omega arith) ∙ find_id-get_elem? (suc n) i ps h.1)
  where
    other : (p.id == n + suc i) ≡ false
    other = ground (arith, h.0)

insert_printer-IsNumbered :
    (found : Option Printer) (p : Printer) (ps : Printers)
    → IsNumbered ps
    → p.id ≡ ps.printer_id
    → ps.printer_id + 1 < 32
    → IsNumbered (insert_printer found p ps).1
unfolding insert_printer
insert_printer-IsNumbered (some q) p ps h e l = h
insert_printer-IsNumbered none p ps h e l = record {
  ids = IdsFrom-append 0 ps.head p h.ids (omega (arith, e, h.count));
  count = omega (arith, length-append ps.head (p ∷ []), h.count);
  bound = l;
}

add_printer-IsNumbered :
    (ps : Printers) (name type : List ℕ) → IsNumbered ps → IsNumbered (add_printer ps name type).1
unfolding add_printer
add_printer-IsNumbered ps name type h = elim (Bool-cases (ps.printer_id + 1 == 32)) [
  | inl e ↦ rw e h
  | inr e ↦ rw e (
      insert_printer-IsNumbered (search_printer ps.head name) _ ps h refl
        (ground (arith, e, h.bound)))
]

pub add_all-IsNumbered :
    (ps : Printers) (rs : List (List ℕ × List ℕ)) → IsNumbered ps → IsNumbered (add_all ps rs)
unfolding add_all
add_all-IsNumbered ps [] h = h
add_all-IsNumbered ps ((name, type) ∷ rs) h =
    add_all-IsNumbered (add_printer ps name type).1 rs (add_printer-IsNumbered ps name type h)

-- After any run of `add_printer` from the empty list there are at most 31 printers, and
-- `get_printer_by_id` of i below 2 ^ 31 gives the printer at place i of the list, or NULL beyond
-- its end.
pub get_printer_by_id-add_all :
    (rs : List (List ℕ × List ℕ)) (i : ℕ)
    → i < 2 ^ 31
    → (length (add_all no_printers rs).head < 32)
      × (get_printer_by_id (add_all no_printers rs).head i
          ≡ get_elem? (add_all no_printers rs).head i)
unfolding get_printer_by_id
get_printer_by_id-add_all rs i l =
    let h =
      add_all-IsNumbered no_printers rs (record { ids = tt; count = refl; bound = omega arith }) in
    (
      omega (arith, h.count, h.bound),
      rw positive (
          ap (find_id (add_all no_printers rs).head) (omega arith)
          ∙ find_id-get_elem? 0 i (add_all no_printers rs).head h.ids),
    )
  where
    positive : (is_neg i && (is_neg i || ltb i 31)) ≡ false
    positive = ground arith
