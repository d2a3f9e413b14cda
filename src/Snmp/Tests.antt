-- ===== src/Snmp/Tests.antt =====
-- The theorems about SNMP at concrete inputs.
use laitos.Base.{◌≡◌, true, [], ◌∷◌, ◌++◌}
use laitos.Snmp.{parent_oid}
use laitos.Snmp.Walk.{walk_ends, walk_ends-within}

walk_ends-within_example : walk_ends (λ n. n) 12 (parent_oid ++ (106 ∷ [])) ≡ true
walk_ends-within_example = walk_ends-within (λ n. n) (parent_oid ++ (106 ∷ []))
