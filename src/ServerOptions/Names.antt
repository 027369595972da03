-- ===== src/ServerOptions/Names.antt =====
-- `RosNameCharacters` and `RosNodeName` (src/common/src/robot_server_options.cpp).
use xgc2_ros1_adapter.Common.{
  ℕ, suc, ◌+◌, ◌≤◌, ◌≡◌, refl, ap, Bool, true, false, [], ◌∷◌, ◌&&◌, ◌||◌, leb, ◌==◌, if◌then◌else◌,
  Bytes, length, is_digit, arith, if_rule,
}
use xgc2_ros1_adapter.Identifiers.{is_letter_or_digit}

abbrev pub is_name_character : ℕ → Bool
is_name_character c = is_letter_or_digit c || c == b'_'

unfoldable pub ros_name_characters : Bytes → Bytes
ros_name_characters [] = []
ros_name_characters (c ∷ cs) = (if is_name_character c then c else b'_') ∷ ros_name_characters cs

-- Whether a name wants a letter before it.
abbrev pub no_letter_first : Bytes → Bool
no_letter_first [] = true
no_letter_first (c ∷ cs) = is_digit c || c == b'_'

unfoldable pub ros_node_name : Bytes → Bytes
unfolding ros_name_characters
ros_node_name node_name =
    let name = ros_name_characters node_name in if no_letter_first name then b'n' ∷ name else name

-- A base name as ROS asks it: a letter, then letters, digits and underscores.
unfoldable pub all_name_characters : Bytes → Bool
all_name_characters [] = true
all_name_characters (c ∷ cs) = is_name_character c && all_name_characters cs

abbrev pub is_ros_name : Bytes → Bool
is_ros_name [] = false
is_ros_name (c ∷ cs) =
    ((leb b'a' c && leb c b'z') || (leb b'A' c && leb c b'Z')) && all_name_characters cs

all_name_characters-ros_name_characters :
    (s : Bytes) → all_name_characters (ros_name_characters s) ≡ true
unfolding all_name_characters ros_name_characters
all_name_characters-ros_name_characters [] = refl
all_name_characters-ros_name_characters (c ∷ cs) =
    ground (arith, all_name_characters-ros_name_characters cs)

ros_name_characters_id : (s : Bytes) → all_name_characters s ≡ true → ros_name_characters s ≡ s
unfolding all_name_characters ros_name_characters
ros_name_characters_id [] h = refl
ros_name_characters_id (c ∷ cs) h = ground (arith, h, ros_name_characters_id cs)

length-ros_name_characters : (s : Bytes) → length (ros_name_characters s) ≡ length s
unfolding ros_name_characters
length-ros_name_characters [] = refl
length-ros_name_characters (c ∷ cs) = ap suc (length-ros_name_characters cs)

named :
    (s : Bytes) → all_name_characters s ≡ true → no_letter_first s ≡ false → is_ros_name s ≡ true
unfolding all_name_characters
named [] h n = cc
named (c ∷ cs) h n = ground (arith, h, n)

ros_node_name-kept :
    (s : Bytes) → all_name_characters s ≡ true → no_letter_first s ≡ false → ros_node_name s ≡ s
unfolding ros_node_name
ros_node_name-kept s h n = ground (arith, n, ros_name_characters_id s h)

-- Of a name that was rewritten, or that got the letter.
Kept : (s t : Bytes) → Type 0
Kept s t = (is_ros_name t ≡ true) × (length t ≤ length s + 1) × (ros_node_name t ≡ t)

rewritten-Kept :
    (s name : Bytes)
    → all_name_characters name ≡ true
    → length name ≡ length s
    → Kept s (if no_letter_first name then b'n' ∷ name else name)
unfolding Kept all_name_characters
rewritten-Kept s name h l =
    if_rule (Kept s) (no_letter_first name)
      (λ n. (
        ground (arith, h),
        omega (arith, l),
        ros_node_name-kept (b'n' ∷ name) (ground (arith, h)) refl,
      ))
      (λ n. (named name h n, omega (arith, l), ros_node_name-kept name h n))

-- Whatever the node name of the options, the name of the ROS node is one that ROS takes, it is at most
-- one letter longer, and it is its own ROS node name.
pub is_ros_name-ros_node_name :
    (s : Bytes)
    → (is_ros_name (ros_node_name s) ≡ true)
      × (length (ros_node_name s) ≤ length s + 1)
      × (ros_node_name (ros_node_name s) ≡ ros_node_name s)
unfolding ros_node_name Kept
is_ros_name-ros_node_name s =
    rewritten-Kept s (ros_name_characters s) (all_name_characters-ros_name_characters s)
      (length-ros_name_characters s)
