-- ===== src/Snmp.antt =====
-- daemon/snmpd/snmp/nodes.go and daemon/snmpd/snmpd.go: the objects that the SNMP server has, and
-- its answers.
--
-- An object identifier is a list of numbers. What a node shows is an argument. `sort.SearchInts`
-- is the number of elements below the one searched for, as documented for a sorted list.
pub mod Walk
mod Tests
use laitos.Base.{
  ℕ, zero, suc, ◌+◌, ◌-◌, Bool, true, false, not, ◌||◌, List, [], ◌∷◌, ◌++◌, Option, none, some,
  ltb, leb, ◌==◌, if◌then◌else◌, length, take, get_or, set, equal,
}

abbrev pub parent_oid : List ℕ
parent_oid = 1 ∷ 3 ∷ 6 ∷ 1 ∷ 4 ∷ 1 ∷ 52535 ∷ 121 ∷ []

abbrev pub first_oid : List ℕ
first_oid = parent_oid ++ (100 ∷ [])

-- `OIDSuffixList`: the keys of `OIDNodes`, sorted.
abbrev pub oid_suffix_list : List ℕ
oid_suffix_list = 100 ∷ 101 ∷ 102 ∷ 103 ∷ 104 ∷ 105 ∷ 110 ∷ 111 ∷ 112 ∷ 114 ∷ 115 ∷ []

abbrev pub search_ints : List ℕ → ℕ → ℕ
search_ints [] x = 0
search_ints (a ∷ xs) x = let rest = search_ints xs x in if ltb a x then suc rest else 0

-- The identifier is not one number longer than the parent's, or of another parent.
unfoldable pub is_foreign : List ℕ → Bool
unfolding equal
is_foreign oid =
    leb (length oid) (length parent_oid) || not (equal (take (length oid - 1) oid) parent_oid)

-- The last number of an identifier that is not empty.
abbrev pub suffix_of : List ℕ → ℕ
suffix_of oid = get_or oid (length oid - 1) 0

abbrev pub member : ℕ → List ℕ → Bool
member x [] = false
member x (a ∷ xs) = a == x || member x xs

-- `GetNode`, of which the result is the key of the node.
unfoldable pub get_node : List ℕ → Option ℕ
unfolding is_foreign
get_node oid =
    if is_foreign oid
    then none
    else if member (suffix_of oid) oid_suffix_list
    then some (suffix_of oid)
    else none

-- The next identifier of one that is of the parent, by where its suffix belongs in the list.
unfoldable pub next_at : List ℕ → ℕ → List ℕ × Bool
next_at oid pos =
    if pos == length oid_suffix_list
    then (first_oid, false)
    else if pos == length oid_suffix_list - 1
    then (oid, true)
    else (set oid (length oid - 1) (get_or oid_suffix_list (pos + 1) 0), false)

unfoldable pub get_next_node : List ℕ → List ℕ × Bool
unfolding is_foreign next_at
get_next_node oid =
    if is_foreign oid
    then (first_oid, false)
    else next_at oid (search_ints oid_suffix_list (suffix_of oid))

pub record GetResponse {ℓ} (V : Type ℓ) : Type ℓ where
  pub requested_oid : List ℕ
  pub value : Option V
  pub no_such_instance : Bool
  pub end_of_mib_view : Bool

pub data Request : Type 0 where
  get_request get_next_request : List ℕ → Request

-- The node of an identifier, or no such instance.
abbrev pub node_response {ℓ} : {V : Type ℓ} → (ℕ → V) → List ℕ → Option ℕ → GetResponse V
node_response show oid none = record {
  requested_oid = oid;
  value = none;
  no_such_instance = true;
  end_of_mib_view = false;
}
node_response show oid (some node) = record {
  requested_oid = oid;
  value = some (show node);
  no_such_instance = false;
  end_of_mib_view = false;
}

-- The node behind an identifier, or no answer where there is none.
abbrev pub next_response {ℓ} :
    {V : Type ℓ} → (ℕ → V) → List ℕ → Bool → Option ℕ → Option (GetResponse V)
next_response show oid end none = none
next_response show oid end (some node) = some (record {
  requested_oid = oid;
  value = some (show node);
  no_such_instance = false;
  end_of_mib_view = end;
})

-- The switch on the PDU in `HandleUDPClient`, on a packet with the right community name.
unfoldable pub answer {ℓ} : {V : Type ℓ} → (ℕ → V) → Request → Option (GetResponse V)
unfolding get_node get_next_node
answer show (get_request oid) = some (node_response show oid (get_node oid))
answer show (get_next_request oid) =
    let (next, end) = get_next_node oid in next_response show next end (get_node next)
