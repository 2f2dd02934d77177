-- ===== src/Process/Table.antt =====
-- The laws of the map `procs` of the subprocess adapter.
use modeld_go.Common.{◌≡◌, refl, none, some, List, [], ◌∷◌, Text, text_eq, if◌then◌else◌, arith}
use modeld_go.Process.{ProcInfo, lookup, insert, erase}

pub lookup-insert :
    (j k : Text) (p : ProcInfo) (m : List (Text × ProcInfo))
    → lookup j (insert k p m) ≡ (if text_eq k j then some p else lookup j m)
unfolding lookup insert
lookup-insert j k p [] = refl
lookup-insert j k p (_ ∷ m) = ground (arith, lookup-insert j k p m)

pub lookup-erase :
    (j k : Text) (m : List (Text × ProcInfo))
    → lookup j (erase k m) ≡ (if text_eq k j then none else lookup j m)
unfolding lookup erase
lookup-erase j k [] = ground arith
lookup-erase j k (_ ∷ m) = ground (arith, lookup-erase j k m)
