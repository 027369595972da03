-- ===== src/ServerOptions/Scenarios.antt =====
-- Tests of src/common/src/robot_server_options.cpp, and the theorems at concrete inputs.
use xgc2_ros1_adapter.Common.{
  ◌+◌, ◌≤◌, ◌≡◌, refl, true, false, List, [], ◌∷◌, Option, none, some, Bytes, codes, length,
  bytes_eq, after_prefix, before_byte, after_byte, all_digits, decimal_from, if◌then◌else◌,
}
use xgc2_ros1_adapter.Identifiers.{valid_reference_id}
use xgc2_ros1_adapter.ServerOptions.Names.{
  ros_name_characters, ros_node_name, is_ros_name, is_ros_name-ros_node_name,
}
use xgc2_ros1_adapter.ServerOptions.Parse.{
  Flag, socket_path, run_id, node_name, provider, target_id, ros_master_uri, ros_ip,
  network_bootstrap, value_of, no_values, flag_in, read_flags, all_seen, ServerOptions,
  valid_components, valid_socket_path, last_colon, all_slashes, valid_authority, valid_master_uri,
  has_part, is_served, valid_options, parse_server_options,
}
use xgc2_ros1_adapter.ServerOptions.Reading.{
  arguments_of, given, value_in, parse_server_options-arguments_of,
}

options_code : Unit {0}
unfolding bytes_eq after_prefix before_byte after_byte all_digits decimal_from valid_reference_id
    ros_name_characters ros_node_name flag_in read_flags all_seen valid_components valid_socket_path
    last_colon all_slashes valid_authority valid_master_uri has_part is_served valid_options
    parse_server_options
options_code = tt

abbrev options : (run : Bytes) → ServerOptions
options run = record {
  socket_path = codes "/run/a.sock";
  run_id = run;
  node_name = codes "xgc_a-12";
  provider = codes "type-a";
  target_id = codes "local";
  ros_master_uri = codes "http://localhost:11311/";
  ros_ip = [];
  network_bootstrap = [];
}

abbrev settings : (run : Bytes) → List (Flag × Bytes)
settings run =
    (run_id, run)
    ∷ (socket_path, codes "/run/a.sock")
    ∷ (provider, codes "type-a")
    ∷ (node_name, codes "xgc_a-12")
    ∷ (target_id, codes "local")
    ∷ (ros_ip, [])
    ∷ (ros_master_uri, codes "http://localhost:11311/")
    ∷ []

abbrev read : Bytes → Option ServerOptions
read run = parse_server_options 108 (codes "type-a" ∷ []) (arguments_of (settings run))

-- Two runs, of which one's identifier is within the other's, may have one node name.
shares_a_node_name :
    (read (codes "a-12") ≡ some (options (codes "a-12")))
    × (read (codes "a_1") ≡ some (options (codes "a_1")))
unfolding options_code
shares_a_node_name = (refl, refl)

refuses :
    (valid_socket_path 108 (codes "/run/../a.sock") ≡ false)
    × (valid_socket_path 108 (codes "/run//a.sock") ≡ false)
    × (valid_master_uri (codes "http://localhost:0") ≡ false)
    × (valid_master_uri (codes "http://localhost:70000") ≡ false)
    × (valid_master_uri (codes "http://:11311") ≡ false)
    × (valid_master_uri (codes "http://[::1]:11311//") ≡ true)
    × (ros_node_name (codes "1-a") ≡ codes "n1_a")
unfolding options_code
refuses = (refl, refl, refl, refl, refl, refl, refl)

is_ros_name-ros_node_name_example :
    (is_ros_name (ros_node_name (codes "1-a")) ≡ true)
    × (length (ros_node_name (codes "1-a")) ≤ length (codes "1-a") + 1)
    × (ros_node_name (ros_node_name (codes "1-a")) ≡ ros_node_name (codes "1-a"))
is_ros_name-ros_node_name_example = is_ros_name-ros_node_name (codes "1-a")

settings_values :
    (f : Flag)
    → value_of f (given (settings (codes "a-12")) no_values) ≡ value_in (options (codes "a-12")) f
settings_values socket_path = refl
settings_values run_id = refl
settings_values node_name = refl
settings_values provider = refl
settings_values target_id = refl
settings_values ros_master_uri = refl
settings_values ros_ip = refl
settings_values network_bootstrap = refl

parse_server_options-arguments_of_example :
    parse_server_options 108 (codes "type-a" ∷ []) (arguments_of (settings (codes "a-12"))) ≡ (
      if valid_options 108 (codes "type-a" ∷ []) (options (codes "a-12"))
      then some (options (codes "a-12"))
      else none)
unfolding options_code
parse_server_options-arguments_of_example =
    parse_server_options-arguments_of 108 (codes "type-a" ∷ []) (options (codes "a-12"))
      (settings (codes "a-12"))
      (
        refl,
        refl,
        (refl, refl, (refl, refl, (refl, refl, (refl, refl, (refl, refl, (refl, refl, tt)))))),
      )
      refl settings_values
