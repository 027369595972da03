-- ===== src/Identifiers.antt =====
-- Which texts are identifiers: `ValidReferenceId` of src/common/src/robot_server_options.cpp and
-- `ValidRobotIdentity` of src/common/src/robot_domain.cpp. A text is its bytes.
use xgc2_ros1_adapter.Common.{
  ℕ, Bool, true, false, [], ◌∷◌, ◌&&◌, ◌||◌, not, leb, ◌==◌, Bytes, length, is_empty,
}

abbrev pub is_letter_or_digit : ℕ → Bool
is_letter_or_digit c =
    (leb b'a' c && leb c b'z') || (leb b'A' c && leb c b'Z') || (leb b'0' c && leb c b'9')

-- `std::all_of` over the bytes of a text.
pub all_of : (ℕ → Bool) → Bytes → Bool
all_of p [] = true
all_of p (c ∷ cs) = p c && all_of p cs

pub identifier_character : ℕ → Bool
identifier_character c =
    is_letter_or_digit c || (c == b'.' || (c == b'_' || (c == b':' || c == b'-')))

unfoldable pub valid_reference_id : Bytes → Bool
unfolding all_of identifier_character
valid_reference_id value =
    not (is_empty value) && (leb (length value) 128 && all_of identifier_character value)

pub robot_id_character : ℕ → Bool
robot_id_character c = is_letter_or_digit c || (c == b'_' || (c == b'.' || c == b'-'))

-- The pattern `^[A-Za-z0-9][A-Za-z0-9_.-]{0,127}$` over the whole text.
unfoldable pub valid_robot_identity : Bytes → Bool
unfolding all_of robot_id_character
valid_robot_identity [] = false
valid_robot_identity (c ∷ cs) =
    is_letter_or_digit c && (leb (length cs) 127 && all_of robot_id_character cs)
