-- ===== src/VideoCall/Start/Release.antt =====
-- What the clean-up of a session leaves in the client's registry.
use comelit_man.Client.{Client, remove_channel, if_open, get_channel}
use comelit_man.Prelude.{Text, ◌≡◌, refl, ap, ◌∙◌, false, List, [], ◌∷◌, All}
use comelit_man.VideoCall.Start.{remove_all, cleanup}
use comelit_man.Bytes.{same_bytes}
use comelit_man.VideoCall.State.{Session}
use comelit_man.VideoCall.Names.{ctpp_name, media_names}
use comelit_man.Dict.Laws.{lookup-remove_other}

remove_channel-get_channel :
    (key name : Text) (c : Client)
    → same_bytes key name ≡ false
    → get_channel (remove_channel c name) key ≡ get_channel c key
unfolding get_channel remove_channel
remove_channel-get_channel key name c differ =
    ap if_open (lookup-remove_other key name c.channels differ)

remove_all-get_channel :
    (key : Text) (names : List Text) (c : Client)
    → All (λ name. same_bytes key name ≡ false) names
    → get_channel (remove_all names c) key ≡ get_channel c key
unfolding remove_all
remove_all-get_channel key [] c differ = refl
remove_all-get_channel key (n ∷ ns) c differ =
    remove_all-get_channel key ns (remove_channel c n) differ.1
    ∙ remove_channel-get_channel key n c differ.0

media-differ : All (λ name. same_bytes ctpp_name name ≡ false) media_names
unfolding same_bytes
media-differ = (refl, (refl, (refl, (refl, (refl, tt)))))

-- A session that did not open the CTPP channel leaves it as it is.
pub cleanup-get_channel :
    (s : Session)
    → s.owns_ctpp ≡ false
    → get_channel (cleanup s).client ctpp_name ≡ get_channel s.client ctpp_name
unfolding cleanup
cleanup-get_channel s borrowed =
    rw borrowed (remove_all-get_channel ctpp_name media_names s.client media-differ)
