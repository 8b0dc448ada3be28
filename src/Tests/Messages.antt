-- ===== src/Tests/Messages.antt =====
-- Messages and addresses at concrete inputs.
use comelit_man.Prelude.{Text, [], ◌∷◌, ◌++◌}

abbrev pub apartment : Text
apartment = b'0' ∷ b'0' ∷ b'0' ∷ b'0' ∷ b'0' ∷ b'6' ∷ []

abbrev pub sub_apartment : Text
sub_apartment = apartment ++ b'2' ∷ []
