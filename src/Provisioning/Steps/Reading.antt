-- ===== src/Provisioning/Steps/Reading.antt =====
-- The part of provisioning that only reads, up to the slot it picks.
use comelit_man.Web.{Request, Reply, Device, post, get}
use comelit_man.Prelude.{Text, ◌≡◌, refl, List, [], ◌∷◌, ◌++◌, All, All-append, ok}
use comelit_man.Token.{Tools, read_users_cfg}
use comelit_man.Token.Download.{
  login_page, create_backup_page, backup_page, login, download_latest_backup,
}
use comelit_man.Provisioning.Steps.{pick_slot}
use comelit_man.Provisioning.{UserSlot}
use comelit_man.Bytes.{Bytes}
use comelit_man.Web.Outcomes.{
  Ends, then_Ends, ask-Ends, check-Ends, value-Ends, require-Ends, lift-Ends, pure-Ends,
}
use comelit_man.Provisioning.FreeSlot.{FirstUsable, find_free_slot_iff}
use comelit_man.Provisioning.Users.{parse_user_slots}

-- A request that only logs in or reads.
pub data IsReading : Request → Type 0 where
  logs_in : (password : Text) → IsReading (post login_page password)
  backs_up : IsReading (post create_backup_page [])
  reads : (page : Text) → IsReading (get page)

abbrev pub AllRead : List Request → Type 0
AllRead sent = All IsReading sent

reads_more :
    (sent : List Request) (q : Request) → AllRead sent → IsReading q → AllRead (sent ++ q ∷ [])
reads_more sent q h k = All-append IsReading sent (q ∷ []) h (k, tt)

-- The slot was read from the backup whose download was the last request.
pub record Picked (tools : Tools) (d : Device) (sent : List Request) (target : UserSlot)
    : Type 0 where
  pub only_reads : All IsReading sent
  pub answer : Reply
  pub answered : d sent ≡ ok answer
  pub users : Text
  pub users_read : read_users_cfg tools answer.content ≡ ok users
  pub first : FirstUsable target (parse_user_slots users)

login-reads :
    (password : Text) (d : Device) (sent : List Request)
    → AllRead sent
    → Ends (λ s u. AllRead s) AllRead (login password d sent)
unfolding login
login-reads password d sent h =
    let more = reads_more sent _ h (logs_in password) in
    ask-Ends _ _ _ _ more
      (λ a e. check-Ends _ _ _ _ more (λ k. require-Ends _ _ _ more (λ l. more)))

-- The backup that was downloaded is the content of the last reply.
abbrev Downloaded : Device → List Request → Bytes → Type 0
Downloaded d sent archive =
    AllRead sent × (answer : Reply) × (d sent ≡ ok answer) × (answer.content ≡ archive)

download-reads :
    (d : Device) (sent : List Request)
    → AllRead sent
    → Ends (Downloaded d) AllRead (download_latest_backup d sent)
unfolding download_latest_backup
download-reads d sent h =
    let created = reads_more sent _ h backs_up in
    let listed = reads_more _ _ created (reads backup_page) in
    ask-Ends _ _ _ _ created (λ a e. check-Ends _ _ _ _ created (λ k.
      ask-Ends _ _ _ _ listed (λ page e'. check-Ends _ _ _ _ listed (λ k'.
        value-Ends _ _ _ _ listed (λ file e2.
          let fetched = reads_more _ _ listed (reads (b'/' ∷ file)) in
          ask-Ends _ _ _ _ fetched (λ archive answered.
            check-Ends _ _ _ _ fetched
              (λ l. pure-Ends _ _ _ (fetched, archive, answered, refl))))))))

pub pick_slot-Picked :
    (tools : Tools) (password : Text) (d : Device)
    → Ends (Picked tools d) AllRead (pick_slot tools password d [])
unfolding pick_slot
pick_slot-Picked tools password d = then_Ends _ _ _ _ (login-reads password d [] tt) (λ s u h.
    then_Ends _ _ _ _ (download-reads d s h) (λ s' archive (k, answer, answered, same).
      value-Ends _ _ _ _ k (λ users read. check-Ends _ _ _ _ k (λ some_slots.
        lift-Ends _ _ _ k (λ target found. record {
          only_reads = k;
          answer = answer;
          answered = answered;
          users = users;
          users_read = rw same read;
          first = (find_free_slot_iff (parse_user_slots users) target).0 found;
        })))))
