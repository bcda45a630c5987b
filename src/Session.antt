-- ===== src/Session.antt =====
-- A session and its two tables of references: go/jsonrpc3/session.go.
-- An object is known by its pointer, a number, and so is a `RefInfo`. A time is a number, and 0 is Go's zero time; the
-- current time is an argument. `Dispose` and `Close` are calls of the application: an operation
-- returns the calls that it makes, in order.
mod Data
mod Tests
pub mod Local
pub mod Remote
pub use Data.*
use jsonrpc.Base.{
  ℕ, ◌+◌, ◌%◌, ◌^◌, Bool, true, false, Option, none, some, List, [], ◌∷◌, ◌++◌, map, length, Str,
  codes, is_empty, ◌==◌, if◌then◌else◌,
}
use jsonrpc.Base.Dict.{Dict, lookup, insert, erase, member}
use jsonrpc.Base.Decimal.{decimal}
use jsonrpc.Any.{nil}

-- `NewSessionWithID`
abbrev pub new_session : Str → ℕ → Session
new_session id now = record {
  id = id;
  created_at = now;
  local_refs = [];
  remote_refs = [];
  infos = λ a. zero_info;
  ref_counter = 0;
}

-- The text of the n-th generated reference.
unfoldable pub ref_id : ℕ → Str
ref_id n = codes "ref-" ++ decimal n

-- `GenerateRefID`; the counter is a `uint64`.
unfoldable pub generate_ref_id : Session → Session × Str
generate_ref_id s =
    let count = (s.ref_counter + 1) % 2 ^ 64 in (record s { ref_counter = count }, ref_id count)

store_local : Str → ℕ → Session → Session
store_local ref obj s = record s { local_refs = insert ref obj s.local_refs }

-- `AddLocalRef`; `AddLocal` is the case of an empty reference.
unfoldable pub add_local_ref : Str → ℕ → Session → Session × Str
unfolding generate_ref_id store_local
add_local_ref ref obj s =
    let (s', r) = if is_empty ref then generate_ref_id s else (s, ref) in (store_local r obj s', r)

unfoldable pub get_local_ref : Str → Session → Option ℕ
get_local_ref ref s = lookup ref s.local_refs

unfoldable pub has_local_ref : Str → Session → Bool
has_local_ref ref s = member ref s.local_refs

-- `disposeObject`: `Dispose`, or else `Close`, or nothing.
unfoldable pub dispose_object : Traits → ℕ → List Cleanup
dispose_object t obj =
    if t.is_disposable obj
    then dispose obj ∷ []
    else if t.is_closeable obj
    then close obj ∷ []
    else []

drop_local : Str → Session → Session
drop_local ref s = record s { local_refs = erase ref s.local_refs }

-- `RemoveLocalRef`
unfoldable pub remove_local_ref : Traits → Str → Session → Session × Bool × List Cleanup
unfolding drop_local
remove_local_ref t ref s = elim (lookup ref s.local_refs) [
  | none ↦ (s, false, [])
  | some obj ↦ (drop_local ref s, true, dispose_object t obj)
]

-- The first reference to an object, in the order of the map.
find_object : ℕ → Dict ℕ → Option Str
find_object obj [] = none
find_object obj ((r, o) ∷ refs) = if o == obj then some r else find_object obj refs

-- `RemoveObject`
unfoldable pub remove_object : Traits → ℕ → Session → Session × Bool × List Cleanup
unfolding find_object drop_local
remove_object t obj s = elim (find_object obj s.local_refs) [
  | none ↦ (s, false, [])
  | some ref ↦ (drop_local ref s, true, dispose_object t obj)
]

unfoldable pub list_local_refs : Session → List Str
list_local_refs s = map (λ e. e.0) s.local_refs

-- A write through a pointer: everything that has the pointer sees it.
abbrev pub set_info : ℕ → RefInfo → Session → Session
set_info a info s = record s { infos = λ b. if a == b then info else s.infos b }

-- What `AddRemoteRef` makes of a nil info.
abbrev blank_info : Str → ℕ → RefInfo
blank_info ref now = record zero_info { ref = ref; direction = remote; created = now }

-- What it writes into an info.
abbrev pub remote_info : Str → ℕ → RefInfo → RefInfo
remote_info ref now info = record info {
  ref = ref;
  direction = remote;
  created = if info.created == 0 then now else info.created;
  last_accessed = now;
}

store_remote : Str → ℕ → ℕ → Session → Session
store_remote ref a now s = record (set_info a (remote_info ref now (s.infos a)) s) {
  remote_refs = insert ref a s.remote_refs;
}

-- `AddRemoteRef`, with the caller's pointer, or with none; `fresh` is the pointer of a new info.
unfoldable pub add_remote_ref : Str → Option ℕ → ℕ → ℕ → Session → Session
unfolding store_remote
add_remote_ref ref none fresh now s =
    store_remote ref fresh now (set_info fresh (blank_info ref now) s)
add_remote_ref ref (some a) fresh now s = store_remote ref a now s

touch : ℕ → ℕ → Session → Session × Option RefInfo
touch a now s =
    let seen = record (s.infos a) { last_accessed = now } in (set_info a seen s, some seen)

-- `GetRemoteRefInfo`, which marks the time of the access, with what the pointer that it returns then
-- points to.
unfoldable pub get_remote_ref_info : Str → ℕ → Session → Session × Option RefInfo
unfolding touch
get_remote_ref_info ref now s = elim (lookup ref s.remote_refs) [
  | none ↦ (s, none)
  | some a ↦ touch a now s
]

-- `RemoveRemoteRef`
unfoldable pub remove_remote_ref : Str → Session → Session × Bool
remove_remote_ref ref s =
    if member ref s.remote_refs
    then (record s { remote_refs = erase ref s.remote_refs }, true)
    else (s, false)

unfoldable pub has_remote_ref : Str → Session → Bool
has_remote_ref ref s = member ref s.remote_refs

unfoldable pub list_remote_refs : Session → List RefInfo
list_remote_refs s = map (λ e. s.infos e.1) s.remote_refs

-- The calls of `disposeObject` for every local object.
dispose_objects : Traits → Dict ℕ → List Cleanup
dispose_objects t [] = []
dispose_objects t ((r, obj) ∷ refs) = dispose_object t obj ++ dispose_objects t refs

-- `DisposeAll`, with the two counts.
unfoldable pub dispose_all : Traits → Session → Session × ℕ × ℕ × List Cleanup
unfolding dispose_objects
dispose_all t s = (
  record s { local_refs = []; remote_refs = [] },
  length s.local_refs,
  length s.remote_refs,
  dispose_objects t s.local_refs,
)

-- What `GetLocalRefInfo` says of an object that is there.
unfoldable pub local_info : Traits → Str → ℕ → Session → ℕ → RefInfo
local_info t ref now s obj = record {
  ref = ref;
  type_name = t.type_name obj;
  direction = local;
  created = s.created_at;
  last_accessed = now;
  metadata = nil;
}

-- `GetLocalRefInfo`
unfoldable pub get_local_ref_info : Traits → Str → ℕ → Session → Option RefInfo
unfolding local_info
get_local_ref_info t ref now s = elim (lookup ref s.local_refs) [
  | none ↦ none
  | some obj ↦ some (local_info t ref now s obj)
]
