-- ===== src/Client/Renaming.antt =====
-- A channel handed from one owner to another under a new name.
use comelit_man.Prelude.{Text, ◌≡◌, refl, false, some}
use comelit_man.Bytes.{same_bytes}
use comelit_man.Dict.{lookup, remove}
use comelit_man.Dict.Laws.{lookup-insert, lookup-insert_other, lookup-remove_other}
use comelit_man.Client.{Channel, Client, rename_channel, if_open, get_channel}

-- A channel of the registry is found under its new name after it is renamed, as it was but for
-- its name, if it is open; a channel under any third name is found as before.
pub rename_channel_lem :
    (c : Client) (old_name new_name other : Text) {ch : Channel}
    → lookup old_name c.channels ≡ some ch
    → same_bytes other old_name ≡ false
    → same_bytes other new_name ≡ false
    → (get_channel (rename_channel c old_name new_name) new_name
        ≡ if_open (some (record ch { name = new_name })))
      × (get_channel (rename_channel c old_name new_name) other ≡ get_channel c other)
unfolding get_channel rename_channel
rename_channel_lem c old_name new_name other {ch} found not_old not_new =
    rw (found, rename_channel)
      (
        rw (lookup-insert new_name (record ch { name = new_name }) (remove old_name c.channels))
            refl,
        rw
            (
              lookup-insert_other other new_name (record ch { name = new_name })
                  (remove old_name c.channels) not_new,
              lookup-remove_other other old_name c.channels not_old,
            )
            refl,
      )
