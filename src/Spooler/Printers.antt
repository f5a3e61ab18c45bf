-- ===== src/Spooler/Printers.antt =====
-- `Printer Spooler/src/printer.c`: the list of printers and their identifiers.
pub mod Ids
use cse.Base.{
  ℕ, zero, suc, ◌+◌, Bool, true, false, Option, none, some, List, [], ◌∷◌, ◌++◌, ◌==◌, ltb, ◌&&◌,
  ◌||◌, if◌then◌else◌,
}
use cse.Base.Word.{is_neg}

-- `struct printer`; `other_info` is never used.
pub record Printer : Type 0 where
  pub id : ℕ
  pub name : List ℕ
  pub type : List ℕ
  pub enabled : ℕ
  pub busy : ℕ

abbrev pub max_printers : ℕ
max_printers = 32

-- `strcmp(a, b) == 0`
unfoldable pub same : List ℕ → List ℕ → Bool
same [] [] = true
same [] (d ∷ t) = false
same (c ∷ s) [] = false
same (c ∷ s) (d ∷ t) = let rest = same s t in if c == d then rest else false

unfoldable pub search_printer : List Printer → List ℕ → Option Printer
search_printer [] name = none
search_printer (p ∷ ps) name =
    let rest = search_printer ps name in if same p.name name then some p else rest

-- The head of the list and `printer_id`.
pub record Printers : Type 0 where
  pub head : List Printer
  pub printer_id : ℕ

abbrev pub no_printers : Printers
no_printers = record { head = []; printer_id = 0 }

-- The end of `add_printer`, after the search.
unfoldable pub insert_printer : Option Printer → Printer → Printers → Option Printer × Printers
insert_printer (some q) p ps = (none, ps)
insert_printer none p ps =
    (some p, record { head = ps.head ++ (p ∷ []); printer_id = ps.printer_id + 1 })

-- NULL and no change, or the new printer at the end of the list.
unfoldable pub add_printer : Printers → List ℕ → List ℕ → Option Printer × Printers
add_printer ps name type =
    let p : Printer = record {
      id = ps.printer_id;
      name = name;
      type = type;
      enabled = 0;
      busy = 0;
    } in
    let inserted = insert_printer (search_printer ps.head name) p ps in
    if ps.printer_id + 1 == max_printers then (none, ps) else inserted

-- A run of `add_printer` over names and types.
unfoldable pub add_all : Printers → List (List ℕ × List ℕ) → Printers
add_all ps [] = ps
add_all ps ((name, type) ∷ rs) = add_all (add_printer ps name type).1 rs

unfoldable pub find_id : List Printer → ℕ → Option Printer
find_id [] id = none
find_id (p ∷ ps) id = let rest = find_id ps id in if p.id == id then some p else rest

-- The guard `id < 0 && id < 31` stops only the negative ones.
unfoldable pub get_printer_by_id : List Printer → ℕ → Option Printer
get_printer_by_id ps id =
    let found = find_id ps id in if is_neg id && (is_neg id || ltb id 31) then none else found
