-- ===== src/ServerOptions/Parse.antt =====
-- `ParseServerOptions` (src/common/src/robot_server_options.cpp). A refusal is `none`: its text is left
-- out. The size of `sun_path` is the system's.
use xgc2_ros1_adapter.Common.{
  ℕ, Bool, true, false, List, [], ◌∷◌, Option, none, some, not, ◌&&◌, ◌||◌, ltb, leb, ◌==◌,
  if◌then◌else◌, Bytes, bytes_eq, length, is_empty, is_some, codes, after_prefix, before_byte,
  after_byte, all_digits, decimal_from,
}
use xgc2_ros1_adapter.Identifiers.{valid_reference_id}
use xgc2_ros1_adapter.ServerOptions.Names.{ros_name_characters}

pub data Flag : Type 0 where
  socket_path run_id node_name provider target_id ros_master_uri ros_ip network_bootstrap : Flag

abbrev pub text_of : Flag → Bytes
text_of socket_path = codes "--socket-path"
text_of run_id = codes "--run-id"
text_of node_name = codes "--node-name"
text_of provider = codes "--provider"
text_of target_id = codes "--target-id"
text_of ros_master_uri = codes "--ros-master-uri"
text_of ros_ip = codes "--ros-ip"
text_of network_bootstrap = codes "--network-bootstrap"

abbrev pub flags : List Flag
flags =
    socket_path ∷ run_id ∷ node_name ∷ provider ∷ target_id ∷ ros_master_uri ∷ ros_ip
    ∷ network_bootstrap ∷ []

unfoldable pub flag_in : List Flag → Bytes → Option Flag
flag_in [] s = none
flag_in (f ∷ fs) s = let later = flag_in fs s in if bytes_eq (text_of f) s then some f else later

abbrev number_of : Flag → ℕ
number_of socket_path = 0
number_of run_id = 1
number_of node_name = 2
number_of provider = 3
number_of target_id = 4
number_of ros_master_uri = 5
number_of ros_ip = 6
number_of network_bootstrap = 7

abbrev pub same_flag : Flag → Flag → Bool
same_flag f k = number_of f == number_of k

abbrev pub is_optional : Flag → Bool
is_optional ros_ip = true
is_optional network_bootstrap = true
is_optional _ = false

-- The values of the flags that were seen.
abbrev pub Values : Type 0
Values = Flag → Option Bytes

abbrev pub no_values : Values
no_values f = none

abbrev pub with_value : Flag → Bytes → Values → Values
with_value f value s k = if same_flag f k then some value else s k

abbrev pub is_value : Flag → Bytes → Bool
is_value f value =
    not (is_some (after_prefix (codes "--") value)) && (is_optional f || not (is_empty value))

unfoldable pub read_flags : List Bytes → Values → Option Values
unfolding flag_in
read_flags [] s = some s
read_flags (a ∷ []) s = none
read_flags (a ∷ value ∷ rest) s = elim (flag_in flags a) [
  | none ↦ none
  | some f ↦
      let later = read_flags rest (with_value f value s) in
      if is_some (s f) || not (is_value f value) then none else later
]

unfoldable pub all_seen : List Flag → Values → Bool
all_seen [] s = true
all_seen (f ∷ fs) s = (is_optional f || is_some (s f)) && all_seen fs s

abbrev pub value_of : Flag → Values → Bytes
value_of f s = elim (s f) [ none ↦ [] | some value ↦ value ]

pub record ServerOptions : Type 0 where
  pub socket_path : Bytes
  pub run_id : Bytes
  pub node_name : Bytes
  pub provider : Bytes
  pub target_id : Bytes
  pub ros_master_uri : Bytes
  pub ros_ip : Bytes
  pub network_bootstrap : Bytes

abbrev pub options_of : Values → ServerOptions
options_of s = record {
  socket_path = value_of socket_path s;
  run_id = value_of run_id s;
  node_name = value_of node_name s;
  provider = value_of provider s;
  target_id = value_of target_id s;
  ros_master_uri = value_of ros_master_uri s;
  ros_ip = value_of ros_ip s;
  network_bootstrap = value_of network_bootstrap s;
}

abbrev pub valid_component : Bytes → Bool
valid_component c =
    not (is_empty c) && (not (bytes_eq c (codes ".")) && not (bytes_eq c (codes "..")))

-- The components of the path after the first slash; `begun` is what was read of the first one,
-- backwards.
unfoldable pub valid_components : (begun : Bytes) → Bytes → Bool
unfolding bytes_eq
valid_components begun [] = valid_component begun
valid_components begun (c ∷ cs) = elim (c == b'/') [
  | true ↦ valid_component begun && valid_components [] cs
  | false ↦ valid_components (c ∷ begun) cs
]

unfoldable pub valid_socket_path : (sun_path : ℕ) → Bytes → Bool
unfolding valid_components
valid_socket_path sun_path [] = false
valid_socket_path sun_path (c ∷ cs) =
    c == b'/' && (ltb (length (c ∷ cs)) sun_path && valid_components [] cs)

unfoldable pub last_colon : Bytes → Option (Bytes × Bytes)
last_colon [] = none
last_colon (c ∷ cs) = elim (last_colon cs) [
  | some (host, port) ↦ some (c ∷ host, port)
  | none ↦ if c == b':' then some ([], cs) else none
]

unfoldable pub all_slashes : Bytes → Bool
all_slashes [] = true
all_slashes (c ∷ cs) = c == b'/' && all_slashes cs

abbrev pub valid_port : Bytes → Bool
valid_port port =
    not (is_empty port)
    && (leb (length port) 5
        && (all_digits port && (leb 1 (decimal_from 0 port) && leb (decimal_from 0 port) 65535)))

unfoldable pub valid_authority : Bytes → Bool
unfolding last_colon all_digits decimal_from
valid_authority authority = elim (last_colon authority) [
  | none ↦ false
  | some (host, port) ↦ not (is_empty host) && valid_port port
]

unfoldable pub valid_master_uri : Bytes → Bool
unfolding valid_authority after_prefix before_byte after_byte all_slashes
valid_master_uri uri = leb (length uri) 2048 && (elim (after_prefix (codes "http://") uri) [
  | none ↦ false
  | some rest ↦
      valid_authority (before_byte b'/' rest)
      && (elim (after_byte b'/' rest) [ none ↦ true | some path ↦ all_slashes path ])
])

unfoldable pub has_part : (part : Bytes) → Bytes → Bool
unfolding after_prefix
has_part part [] = is_some (after_prefix part [])
has_part part (c ∷ cs) = is_some (after_prefix part (c ∷ cs)) || has_part part cs

unfoldable pub is_served : List Bytes → Bytes → Bool
unfolding bytes_eq
is_served [] p = false
is_served (q ∷ qs) p = bytes_eq q p || is_served qs p

abbrev pub valid_bootstrap : Bytes → Bool
valid_bootstrap [] = true
valid_bootstrap (c ∷ cs) = c == b'/' && leb (length (c ∷ cs)) 4096

unfoldable pub valid_options : (sun_path : ℕ) → (providers : List Bytes) → ServerOptions → Bool
unfolding valid_socket_path valid_reference_id ros_name_characters has_part is_served
    valid_master_uri
valid_options sun_path providers o =
    valid_socket_path sun_path o.socket_path
    && (valid_reference_id o.run_id
        && (valid_reference_id o.target_id
            && (leb (length o.node_name) 128
                && (has_part (ros_name_characters o.run_id) (ros_name_characters o.node_name)
                    && (is_served providers o.provider
                        && (valid_master_uri o.ros_master_uri
                            && (leb (length o.ros_ip) 253
                                && valid_bootstrap o.network_bootstrap)))))))

-- The arguments after the program's name.
unfoldable pub parse_server_options :
    (sun_path : ℕ) → (providers : List Bytes) → List Bytes → Option ServerOptions
unfolding read_flags all_seen valid_options
parse_server_options sun_path providers arguments = elim (read_flags arguments no_values) [
  | none ↦ none
  | some s ↦
      if all_seen flags s && valid_options sun_path providers (options_of s)
      then some (options_of s)
      else none
]
