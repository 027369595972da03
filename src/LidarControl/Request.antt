-- ===== src/LidarControl/Request.antt =====
-- What `Control::Impl::Handle` reads from a request
-- (src/scene_ros1_adapter/src/lidar/control.cpp). The JSON reader is a library: its value is an
-- argument.
use xgc2_ros1_adapter.Common.{
  ℕ, Bool, true, false, List, [], ◌∷◌, Option, none, some, not, ◌&&◌, ◌||◌, leb, ◌==◌,
  if◌then◌else◌, Bytes, bytes_eq, length, is_empty, codes, after_prefix, before_byte, after_byte,
  all_digits, decimal_from,
}
use xgc2_ros1_adapter.Common.Int.{ℤ, pos}

mutual
  pub data Json : Type 0 where
    boolean : Bool → Json
    integer : ℤ → Json
    object : Members → Json
    other : Json

  pub data Members : Type 0 where
    end : Members
    member : Bytes → Json → Members → Members

pub data Method : Type 0 where
  get post another : Method

pub record Request : Type 0 where
  pub method : Method
  pub target : Bytes
  pub request_id : Bytes
  pub body : Bytes
  pub parsed : Option Json
  pub deadline : ℕ

pub record Configure : Type 0 where
  pub expected_revision : ℕ
  pub enabled : Bool
  pub operation_timeout_ms : ℕ

abbrev pub maximum_revision : ℕ
maximum_revision = 9007199254740991

-- `Integer`: a positive number up to `high`.
unfoldable pub positive_integer : (high : ℕ) → Json → Option ℕ
positive_integer high (integer (pos n)) = if not (n == 0) && leb n high then some n else none
positive_integer high v = none

unfoldable pub is_one_of : List Bytes → Bytes → Bool
is_one_of [] name = false
is_one_of (a ∷ others) name = bytes_eq a name || is_one_of others name

unfoldable pub known_members : List Bytes → Members → Bool
unfolding is_one_of
known_members allowed end = true
known_members allowed (member name v rest) = is_one_of allowed name && known_members allowed rest

-- A missing member is null.
unfoldable pub get_member : Bytes → Members → Json
get_member name end = other
get_member name (member n v rest) = if bytes_eq n name then v else get_member name rest

-- `Fields`: an object with no other members.
abbrev fields : List Bytes → Json → Option Members
fields allowed (object m) = if known_members allowed m then some m else none
fields allowed v = none

abbrev bool_of : Json → Option Bool
bool_of (boolean b) = some b
bool_of v = none

infixl 5 ◌>>=◌
abbrev ◌>>=◌ : {A B : Type 0} → Option A → (A → Option B) → Option B
none >>= f = none
some a >>= f = f a

-- `none` is an invalid argument.
unfoldable pub configure_of : Option Json → Option Configure
unfolding positive_integer known_members get_member
configure_of parsed = do
  value ← parsed
  m ←
      fields (codes "expected_revision" ∷ codes "configuration" ∷ codes "operation_timeout_ms" ∷ [])
        value
  configuration ← fields (codes "enabled" ∷ []) (get_member (codes "configuration") m)
  enabled ← bool_of (get_member (codes "enabled") configuration)
  expected ← positive_integer maximum_revision (get_member (codes "expected_revision") m)
  budget ← positive_integer 60000 (get_member (codes "operation_timeout_ms") m)
  some (record { expected_revision = expected; enabled = enabled; operation_timeout_ms = budget })

-- `ParseWait`, of the whole target: `none` is another query.
unfoldable pub parse_wait : Bytes → Option ℕ
unfolding after_byte after_prefix all_digits decimal_from
parse_wait target = elim (after_byte b'?' target) [
  | none ↦ some 0
  | some parameter ↦ elim (after_prefix (codes "wait_ready_ms=") parameter) [
    | none ↦ none
    | some digits ↦
        let wait = decimal_from 0 digits in
        if is_empty digits || (not (leb (length digits) 5) || not (all_digits digits))
        then none
        else (if leb wait 30000 then some wait else none)
  ]
]

-- The target without its query.
abbrev pub path_of : Bytes → Bytes
path_of target = before_byte b'?' target

-- The id of an operation route, with whether it ends in a wait: a suffix is cut off an id that is
-- longer than it.
unfoldable pub cut_wait : Bytes → Option Bytes
cut_wait [] = none
cut_wait (c ∷ cs) =
    let rest = cut_wait cs in
    if bytes_eq cs (codes "/wait")
    then some (c ∷ [])
    else elim rest [ none ↦ none | some r ↦ some (c ∷ r) ]
