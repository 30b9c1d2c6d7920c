-- ===== src/Dictionary.antt =====
-- listdict.c, and the functions of table.c over it. The list of nodes is a sequence, the newest
-- first. `strcmp` of the C library is a parameter over the addresses of strings.
pub mod Laws
pub mod Updates
pub mod Map
pub mod Setlist
use too_legit_to_jit.Common.{
  ℕ, zero, suc, ◌+◌, ◌*◌, ◌%◌, ◌^◌, Bool, true, false, Option, none, some, List, [], ◌∷◌, ◌==◌,
  if◌then◌else◌, assertion, out_of_bounds, undefined, Result, ok, fail, and_then, get_elem?, set,
}
use too_legit_to_jit.Word.{add32}
use too_legit_to_jit.Object.{TValue, tvalue, lua_tnil, lua_tnumber, lua_tstring}

pub record Node : Type 0 where
  pub k : TValue
  pub v : TValue

abbrev pub Dictionary : Type 0
Dictionary = List Node

unfoldable pub dictionary_create : ℕ → Dictionary
dictionary_create nr_slots = []

-- `array` is not used. The size that the source allocates is left out.
unfoldable pub table_create : (array hash : ℕ) → Dictionary
unfolding dictionary_create
table_create array hash = dictionary_create hash

-- `list_del` of the node at a position
unfoldable pub list_del : ℕ → Dictionary → Dictionary
list_del i [] = []
list_del zero (n ∷ ns) = ns
list_del (suc i) (n ∷ ns) = n ∷ list_del i ns

-- A key that is no string counts as a number.
unfoldable pub search_key : TValue → TValue
search_key k = if k.t == lua_tstring then k else record k { t = lua_tnumber }

-- The value of a nil result is 0, as the initialiser of the source leaves it.
unfoldable pub assign_node : ℕ → TValue → Dictionary → Dictionary
assign_node i v [] = []
assign_node zero v (n ∷ ns) = record n { v = v } ∷ ns
assign_node (suc i) v (n ∷ ns) = n ∷ assign_node i v ns

module _ (strcmp : ℕ → ℕ → ℕ) where
  -- Whether a stored key is the key that is looked for. The source does not look at the type of the
  -- latter: where it is no string, its bits would go to `strcmp` as an address, which is undefined.
  unfoldable pub key_matches : (stored k : TValue) → Result Bool
  key_matches stored k =
      if stored.t == lua_tstring
      then (if k.t == lua_tstring then ok (strcmp stored.v k.v == 0) else fail undefined)
      else if stored.t == lua_tnumber
      then ok (stored.v == k.v)
      else fail assertion

  -- The position of the node, or none.
  unfoldable pub find : Dictionary → TValue → Result (Option ℕ)
  find [] k = ok none
  find (n ∷ ns) k =
      let rest = find ns k in
      and_then (key_matches n.k k) λ same.
        if same
        then ok (some 0)
        else and_then rest λ r. elim r [ none ↦ ok none | some i ↦ ok (some (suc i)) ]

  unfoldable pub dictionary_delete : Dictionary → TValue → Result (Dictionary × Bool)
  unfolding find list_del key_matches
  dictionary_delete d k =
      and_then (find d k) λ r. elim r [ none ↦ ok (d, false) | some i ↦ ok (list_del i d, true) ]

  unfoldable pub dictionary_search : Dictionary → TValue → Result TValue
  unfolding search_key
  dictionary_search d k = and_then (find d (search_key k)) λ r. elim r [
    | none ↦ ok (tvalue lua_tnil 0)
    | some i ↦ elim (get_elem? d i) [ none ↦ fail out_of_bounds | some n ↦ ok n.v ]
  ]

  unfoldable pub dictionary_insert : Dictionary → TValue → TValue → Result (Dictionary × Bool)
  dictionary_insert d k v = and_then (find d k) λ r. elim r [
    | none ↦ ok (record { k = k; v = v } ∷ d, false)
    | some i ↦ ok (assign_node i v d, true)
  ]

  -- table.c: the dictionary is the whole table, since `table_create` leaves the array empty.
  unfoldable pub table_set : Dictionary → TValue → TValue → Result Dictionary
  table_set t idx v = and_then (dictionary_insert t idx v) λ r. ok (r.0)

  unfoldable pub table_get : Dictionary → TValue → Result TValue
  table_get t idx = dictionary_search t idx

  -- `src` gives the values one below the other; the keys count from `key` on.
  unfoldable pub setlist_loop : Dictionary → ℕ → List TValue → Result Dictionary
  unfolding table_set
  setlist_loop t key [] = ok t
  setlist_loop t key (v ∷ vs) =
      and_then (table_set t (tvalue lua_tnumber key) v) λ t'. setlist_loop t' (add32 key 1) vs

  unfoldable pub table_setlist : Dictionary → List TValue → (idx : ℕ) → Result Dictionary
  unfolding setlist_loop
  table_setlist t src idx = setlist_loop t (add32 idx 1) src
