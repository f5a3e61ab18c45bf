-- ===== src/Grades/Tests.antt =====
-- The sort of rosters of three students.
use cse.Base.{ℕ, ◌≡◌, List, [], ◌∷◌, some, refl, arith, codes}
use cse.Grades.Sort.{
  Student, comparename, compareid, sortroster, partition, sorttable, partition_loop, swap,
  goes_high, next_alt, strcmp,
}
use cse.Grades.Sort.Table.{total}
use cse.Grades.Sort.Loop.{IsSplit}
use cse.Grades.Sort.Rounds.{pivot_of, partition-IsSplit}
use cse.Grades.Sort.Sorted.{IsOrdered, sortroster-IsOrdered}
use cse.Grades.Sort.Order.{comparename-IsOrder}

abbrev lee : Student
lee = record { surname = codes "lee"; name = codes "ann"; id = codes "30" }

abbrev ng : Student
ng = record { surname = codes "ng"; name = codes "bo"; id = codes "10" }

abbrev lee2 : Student
lee2 = record { surname = codes "lee"; name = codes "al"; id = codes "20" }

abbrev roster : List Student
roster = ng ∷ lee ∷ lee2 ∷ []

by_name : sortroster lee comparename roster ≡ some (lee2 ∷ lee ∷ ng ∷ [])
unfolding sortroster sorttable partition partition_loop swap goes_high next_alt comparename strcmp
by_name = refl

by_id : sortroster lee compareid roster ≡ some (ng ∷ lee2 ∷ lee ∷ [])
unfolding sortroster sorttable partition partition_loop swap goes_high next_alt compareid strcmp
by_id = refl

sortroster-IsOrdered_example :
    (ys : List Student) × (sortroster lee comparename roster ≡ some ys)
    × ((w : Student → ℕ) → total w ys ≡ total w roster)
    × IsOrdered lee comparename 3 0 ys
sortroster-IsOrdered_example = sortroster-IsOrdered lee comparename comparename-IsOrder roster

partition-IsSplit_example :
    IsSplit lee comparename 3 0
      (pivot_of lee comparename roster 0 3)
      roster
      (partition lee comparename roster 0 3)
partition-IsSplit_example = partition-IsSplit lee comparename roster 0 3 (ground arith)
