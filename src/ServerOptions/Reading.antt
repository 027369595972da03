-- ===== src/ServerOptions/Reading.antt =====
-- What a command line means to `ParseServerOptions` (src/common/src/robot_server_options.cpp).
use xgc2_ros1_adapter.Common.{
  ℕ, ◌≡◌, refl, true, List, [], ◌∷◌, none, some, if◌then◌else◌, Bytes, bytes_eq, arith,
}
use xgc2_ros1_adapter.ServerOptions.Parse.{
  Flag, socket_path, run_id, node_name, provider, target_id, ros_master_uri, ros_ip,
  network_bootstrap, text_of, flags, flag_in, Values, no_values, with_value, is_value, read_flags,
  all_seen, value_of, ServerOptions, options_of, valid_options, parse_server_options,
}

flag_in-text_of : (f : Flag) → flag_in flags (text_of f) ≡ some f
unfolding flag_in bytes_eq
flag_in-text_of socket_path = refl
flag_in-text_of run_id = refl
flag_in-text_of node_name = refl
flag_in-text_of provider = refl
flag_in-text_of target_id = refl
flag_in-text_of ros_master_uri = refl
flag_in-text_of ros_ip = refl
flag_in-text_of network_bootstrap = refl

-- The arguments that give some flags their values.
abbrev pub arguments_of : List (Flag × Bytes) → List Bytes
arguments_of [] = []
arguments_of ((f, value) ∷ l) = text_of f ∷ value ∷ arguments_of l

-- Each flag is given once, with a value that it takes; `s` has the flags that were given before.
abbrev pub AreGiven : List (Flag × Bytes) → Values → Type 0
AreGiven [] s = Unit
AreGiven ((f, value) ∷ l) s =
    (s f ≡ none) × (is_value f value ≡ true) × AreGiven l (with_value f value s)

abbrev pub given : List (Flag × Bytes) → Values → Values
given [] s = s
given ((f, value) ∷ l) s = given l (with_value f value s)

read_flags-given :
    (l : List (Flag × Bytes)) (s : Values)
    → AreGiven l s
    → read_flags (arguments_of l) s ≡ some (given l s)
unfolding read_flags
read_flags-given [] s h = refl
read_flags-given ((f, value) ∷ l) s h =
    ground (arith, flag_in-text_of f, h.0, h.1, read_flags-given l (with_value f value s) h.2)

abbrev pub value_in : ServerOptions → Flag → Bytes
value_in o socket_path = o.socket_path
value_in o run_id = o.run_id
value_in o node_name = o.node_name
value_in o provider = o.provider
value_in o target_id = o.target_id
value_in o ros_master_uri = o.ros_master_uri
value_in o ros_ip = o.ros_ip
value_in o network_bootstrap = o.network_bootstrap

options_of_values :
    (s : Values) (o : ServerOptions) → ((f : Flag) → value_of f s ≡ value_in o f) → options_of s ≡ o
options_of_values s o h = cc (
  h socket_path,
  h run_id,
  h node_name,
  h provider,
  h target_id,
  h ros_master_uri,
  h ros_ip,
  h network_bootstrap,
)

-- Options that are written as arguments, each flag once, in any order and with the optional ones left
-- out where they are empty, are read back: the result is the options if they are valid, and a refusal
-- otherwise.
pub parse_server_options-arguments_of :
    (sun_path : ℕ) (providers : List Bytes) (o : ServerOptions) (l : List (Flag × Bytes))
    → AreGiven l no_values
    → all_seen flags (given l no_values) ≡ true
    → ((f : Flag) → value_of f (given l no_values) ≡ value_in o f)
    → parse_server_options sun_path providers (arguments_of l)
      ≡ (if valid_options sun_path providers o then some o else none)
unfolding parse_server_options
parse_server_options-arguments_of sun_path providers o l g a h =
    ground (arith, read_flags-given l no_values g, a, options_of_values (given l no_values) o h)
