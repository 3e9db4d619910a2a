-- ===== src/Names.antt =====
-- The list of named handles. 1.0.x/ProdExplUnits/sourcecode has it three times, statement by statement
-- the same: for byte buffers and block buffers in buffer_read_write_fun.cxx and for alarms in
-- alarm_list_fun.cxx. The first node is static and is only marked unused; the others are malloc'ed
-- and freed. A name is a `char[64]` in the node, and C strings are lists of their bytes with no NUL.
pub mod Text
pub mod Save
pub mod Lookup
pub mod Tests
use mitcbcu.Common.{
  ℕ, zero, suc, ◌+◌, ◌-◌, List, [], ◌∷◌, ◌++◌, Bool, true, false, ◌&&◌, ◌||◌, not, ltb, leb, ◌==◌,
  if◌then◌else◌, ℤ, pos, negsuc, to_int, length, take, set, replicate,
}

-- BUFFER_NAME_LEN and ALARM_NAME_LEN.
abbrev pub name_len : ℕ
name_len = 64

-- `char_buffer_id_t`, `block_buffer_id_t` and `alarm_list_node_t`; a handle is an address.
pub record Node : Type 0 where
  pub name : List ℕ
  pub handle : ℕ
  pub used : Bool

-- The first node is the static one.
abbrev pub Names : Type 0
Names = List Node

-- The list when the program starts; a node after its `memset` is the same.
abbrev pub zero_node : Node
zero_node = record { name = replicate name_len 0; handle = 0; used = false }

abbrev pub no_names : Names
no_names = zero_node ∷ []

-- The C string at the start of an array.
abbrev pub c_string : List ℕ → List ℕ
c_string [] = []
c_string (zero ∷ cs) = []
c_string (suc c ∷ cs) = suc c ∷ c_string cs

abbrev pub text_eq : List ℕ → List ℕ → Bool
text_eq [] [] = true
text_eq [] (_ ∷ _) = false
text_eq (_ ∷ _) [] = false
text_eq (a ∷ s) (b ∷ t) = a == b && text_eq s t

-- `strcmp(a, b) == 0` and `strncmp(a, b, n) == 0`, on C strings.
abbrev pub strncmp_eq : ℕ → List ℕ → List ℕ → Bool
strncmp_eq n a b = text_eq (take n a) (take n b)

-- `strncpy(dest, src, n)`.
abbrev pub strncpy : List ℕ → List ℕ → ℕ → List ℕ
strncpy dest src zero = dest
strncpy [] src (suc n) = []
strncpy (d ∷ ds) [] (suc n) = 0 ∷ strncpy ds [] n
strncpy (d ∷ ds) (s ∷ ss) (suc n) = s ∷ strncpy ds ss n

-- `min_len` of the functions that save a name.
abbrev pub save_len : List ℕ → ℕ
save_len name = if leb name_len (length name) then name_len else length name + 1

-- The name stored in a node. For a long name the NUL goes to the first byte behind the array, which
-- belongs to the pointer that the next statement assigns.
pub store_name : List ℕ → List ℕ → List ℕ
store_name cells name = set (strncpy cells name (save_len name - 1)) (save_len name) 0

pub fill : Node → ℕ → List ℕ → Node
fill n h name = record { name = store_name n.name name; handle = h; used = true }

-- Does a used node have this name?
pub name_taken : List ℕ → Names → Bool
name_taken name [] = false
name_taken name (n ∷ ns) = (n.used && text_eq (c_string n.name) name) || name_taken name ns

abbrev pub keep : Node → Names × ℤ → Names × ℤ
keep n (ns, ret) = (n ∷ ns, ret)

-- The first unused node filled, or else a new node behind the last; `malloc_ok` says whether
-- malloc has memory for a node.
pub put_name : ℕ → List ℕ → Bool → Names → Names × ℤ
put_name h name malloc_ok [] =
    if malloc_ok then (fill zero_node h name ∷ [], pos 0) else ([], negsuc 0)
put_name h name malloc_ok (n ∷ ns) =
    if n.used then keep n (put_name h name malloc_ok ns) else (fill n h name ∷ ns, pos 0)

-- CharBufferPointerSave, BlockBufferPointerSave and AlarmPointerSave, for pointers that are not NULL.
pub save : ℕ → List ℕ → Bool → Names → Names × ℤ
save h name malloc_ok ns =
    if name_taken name ns then (ns, negsuc 0) else put_name h name malloc_ok ns

-- A used node with this handle.
abbrev pub holds : ℕ → Node → Bool
holds h n = n.used && n.handle == h

pub any_holds : ℕ → Names → Bool
any_holds h [] = false
any_holds h (n ∷ ns) = holds h n || any_holds h ns

-- CharBufferIsValid, BlockBufferIsValid and AlarmIdIsValid.
pub is_valid : ℕ → Names → Bool
is_valid h ns = not (h == 0) && any_holds h ns

-- The nodes behind the static one without the first that holds the handle.
pub unlink : ℕ → Names → Names
unlink h [] = []
unlink h (n ∷ ns) = if holds h n then ns else n ∷ unlink h ns

-- CharBufferIdReset and BlockBufferIdReset: the static node is marked unused, and keeps its name.
pub reset : ℕ → Names → Names
reset h [] = []
reset h (n ∷ ns) =
    if h == 0 then n ∷ ns else if holds h n then record n { used = false } ∷ ns else n ∷ unlink h ns

-- `min_len` of the functions that look a name up; 0 stands for no comparison.
abbrev pub open_len : List ℕ → List ℕ → ℕ
open_len name stored =
    if leb name_len (length name)
    then name_len - 1
    else if length name == length stored
    then length stored
    else 0

abbrev pub matches : List ℕ → Node → Bool
matches name n =
    let len = open_len name (c_string n.name) in
    n.used && (ltb 0 len && strncmp_eq len (c_string n.name) name)

-- CharBufferOpen and BlockBufferOpen, for a name that is not NULL.
pub open_name : List ℕ → Names → ℤ
open_name name [] = negsuc 0
open_name name (n ∷ ns) = if matches name n then to_int n.handle else open_name name ns
