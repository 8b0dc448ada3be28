-- ===== src/VideoCall/Names.antt =====
-- The names of the session's channels in the client's registry.
use comelit_man.Prelude.{Text, List, [], ◌∷◌, ◌++◌}

abbrev pub ctpp_name : Text
ctpp_name = b'C' ∷ b'T' ∷ b'P' ∷ b'P' ∷ []

abbrev pub cspb_name : Text
cspb_name = b'C' ∷ b'S' ∷ b'P' ∷ b'B' ∷ []

abbrev pub udpm_name : Text
udpm_name = b'U' ∷ b'D' ∷ b'P' ∷ b'M' ∷ []

abbrev pub rtpc_name : Text
rtpc_name = b'R' ∷ b'T' ∷ b'P' ∷ b'C' ∷ []

abbrev pub rtpc2_name : Text
rtpc2_name = rtpc_name ++ b'2' ∷ []

abbrev pub device_name : Text
device_name = rtpc_name ++ b'_' ∷ b'D' ∷ b'E' ∷ b'V' ∷ b'I' ∷ b'C' ∷ b'E' ∷ []

abbrev pub reest_name : Text
reest_name = device_name ++ b'_' ∷ b'R' ∷ b'E' ∷ b'E' ∷ b'S' ∷ b'T' ∷ []

-- `_VIDEO_CHANNEL_NAMES` without CTPP and CSPB.
abbrev pub media_names : List Text
media_names = udpm_name ∷ rtpc_name ∷ rtpc2_name ∷ device_name ∷ reest_name ∷ []
