-- ===== src/Dns/Update.antt =====
-- daemon/dnsd/dnsd.go, UpdateBlackList: the black list that is made of the names downloaded.
--
-- The routines that share the names run at once in the code, and add to one set: here the set is a
-- list, to which they add in turn. The look-up of addresses is an argument, with no address where
-- it fails.
pub mod Shares
use laitos.Base.{
  ℕ, zero, suc, ◌+◌, ◌*◌, ◌/◌, Bool, true, false, List, [], ◌∷◌, ◌++◌, Bytes, ltb, if◌then◌else◌,
  length, take, drop,
}
use laitos.Text.Trim.{trim_space}
use laitos.Dns.Blacklist.{contains_byte}

-- The number of routines: fewer where there is a list already, and on Windows.
unfoldable pub num_routines : Bool → List Bytes → ℕ
num_routines windows black_list =
    let n = if ltb 0 (length black_list) then 6 else 12 in if windows then n / 2 else n

-- What a name adds to the list: the name, and the addresses that it has.
unfoldable pub entries_of : (Bytes → Bytes) → (Bytes → List Bytes) → Bytes → List Bytes
unfolding trim_space contains_byte
entries_of to_lower lookup_ip name =
    let normal = to_lower (trim_space name) in
    if contains_byte normal 0 then [] else normal ∷ lookup_ip normal

unfoldable pub black_list_entries : (Bytes → Bytes) → (Bytes → List Bytes) → List Bytes → List Bytes
unfolding entries_of
black_list_entries to_lower lookup_ip [] = []
black_list_entries to_lower lookup_ip (name ∷ names) =
    entries_of to_lower lookup_ip name ++ black_list_entries to_lower lookup_ip names

-- The names of the routine `i`, of `share` names each.
abbrev pub share_of : ℕ → ℕ → List Bytes → List Bytes
share_of i share names = take share (drop (i * share) names)

-- The names of as many routines as are left, from the routine `i` on.
unfoldable pub shares : ℕ → ℕ → ℕ → List Bytes → List Bytes
shares zero i share names = []
shares (suc left) i share names = share_of i share names ++ shares left (i + 1) share names

unfoldable pub update_black_list :
    (Bytes → Bytes) → (Bytes → List Bytes) → Bool → ℕ → List Bytes → List Bytes → List Bytes
unfolding num_routines black_list_entries shares
update_black_list to_lower lookup_ip windows max_entries downloaded black_list =
    let names =
      if ltb max_entries (length downloaded) then take max_entries downloaded else downloaded in
    let n = num_routines windows black_list in
    black_list_entries to_lower lookup_ip (shares n 0 (length names / n) names)
