-- ===== src/Auth/Tests.antt =====
-- Runs of the theorems on the login, on the users of the sample application.
use baja_valle_service.Prelude.{
  ℕ, ◌+◌, ◌≡◌, ◌≢◌, arith, refl, sym, ap, inl, inr, ◌∙◌, Bool, false, none, some, [], ◌∷◌,
}
use baja_valle_service.Text
use baja_valle_service.Text.Laws.{text_eq_iff}
use baja_valle_service.Text.{codes, text_eq, trim}
use baja_valle_service.Node.Sample.{
  encode, sample, sample_laws, copies, fit, length-copies, length-fit,
}
use baja_valle_service.Exec.{Result, ok, err}
use baja_valle_service.Password
use baja_valle_service.Password.Laws.{verify-phc_text}
use baja_valle_service.Password.Dummy.{IsReady}
use baja_valle_service.App.{State}
use baja_valle_service.Users.Updates.{Writes}
use baja_valle_service.Auth.{
  AuthResponse, LoginDto, RegisterDto, register, invalid_credentials, lock_ms, login, is_locked,
}
use baja_valle_service.Auth.Login.{IsRight, IsLogin, login_right}
use baja_valle_service.Auth.Register.{IsRegistration, register_lem}
use baja_valle_service.Auth.Opening.{IsFree}
use baja_valle_service.Users
use baja_valle_service.Users.Field
use baja_valle_service.Users.Accounts.{to_profile-eq}
use baja_valle_service.Prisma.{Role, User, new_user}
use baja_valle_service.Prisma.Memory.{add_user}
use baja_valle_service.Prisma.Memory.Table.{put-inv}
use baja_valle_service.Encryption.{blind_index}
use baja_valle_service.Prisma.Memory.Find.{find_below}
use baja_valle_service.Auth.Lockout.{
  Owns, after_failure, login_wrong, login_unknown, login_locked_refused,
}
use baja_valle_service.Auth.Repeated.{IsWrong, login_many_locks, login_many}
use baja_valle_service.Sample.{
  app, laws, start, account, ana, ana_email, one_user, one_user-ana, one_locked, one_locked-ana,
  ana_locked, opens, any-IsText,
}

abbrev attempt : LoginDto
attempt = record { email = ana_email; password = codes "wrong word" }

owns : Owns app ana_email ana one_user
unfolding ana account
owns = record { row = one_user-ana; hash = refl }

locked-Owns : Owns app ana_email ana_locked one_locked
unfolding ana_locked account
locked-Owns = record { row = one_locked-ana; hash = refl }

-- No dummy hash has been made.
ready : (w : State app) → w.dummy_hash ≡ none → IsReady app.node w
ready w none_yet = record { dummy = λ h e. cc }

-- The derived key is another.
cut :
    (v : State app)
    → ◌≡◌ {A = Result Bool × State app}
        (ok (text_eq (fit 32 attempt.password) (fit 32 (codes "hidden word"))), v)
        (ok false, v)
unfolding fit
cut v = refl

wrong :
    (v : State app) → Password.verify app.node ana.password_hash attempt.password v ≡ (ok false, v)
unfolding ana account app sample
wrong v =
    verify-phc_text sample sample_laws (copies 16 1) (fit 32 (codes "hidden word"))
      (fit 32 attempt.password) attempt.password v (length-copies 16 1)
      (length-fit 32 (codes "hidden word")) refl (length-fit 32 attempt.password)
    ∙ cut v

is_wrong : IsWrong app ana.email_hash ana.password_hash attempt
is_wrong = record { same = owns.hash; wrong = wrong }

login_wrong_example :
    (w' : State app) × (now : ℕ) × (login app attempt none one_user ≡ (err invalid_credentials, w'))
    × Writes app 0 (after_failure 0 now ana) one_user.db w'.db
    × (w'.dummy_hash ≡ none)
unfolding app start one_user ana is_locked sample
login_wrong_example =
    login_wrong app laws attempt none ana one_user one_user
      (record { row = owns.row; hash = owns.hash }) refl (wrong one_user)

login_many_locks_example :
    let v = login_many app (attempt ∷ attempt ∷ attempt ∷ attempt ∷ []) one_user in
    (now : ℕ) × (app.prisma.user (login app attempt none v).1.db 0
      ≡ some (record ana {
        failed_login_attempts = 0;
        locked_until = some (app.node.clock v.ticks + lock_ms);
        updated_at = now;
      }))
unfolding ana
login_many_locks_example =
    login_many_locks app laws (attempt ∷ attempt ∷ attempt ∷ attempt ∷ []) attempt ana one_user
      one_user-ana refl refl refl (is_wrong, (is_wrong, (is_wrong, (is_wrong, tt)))) is_wrong

abbrev good : LoginDto
good = record { email = ana_email; password = codes "hidden word" }

ana-IsRight : IsRight app laws ana good.password
unfolding ana account app sample IsRight fit
ana-IsRight v =
    verify-phc_text sample sample_laws (copies 16 1) (fit 32 (codes "hidden word"))
      (fit 32 (codes "hidden word")) good.password v (length-copies 16 1)
      (length-fit 32 (codes "hidden word")) refl (length-fit 32 good.password)
    ∙ refl

ana_profile :
    Users.to_profile app ana
    ≡ ok (record {
      id = 0;
      email = ana_email;
      first_name = codes "Ana";
      last_name = codes "Sosa";
      role = Role.client;
      created_at = 0;
    })
unfolding ana account
ana_profile =
    to_profile-eq app laws ana Role.client ana_email (codes "Ana") (codes "Sosa")
      (opens ana_email Field.email) (opens (codes "Ana") Field.first_name)
      (opens (codes "Sosa") Field.last_name) refl

no_session : IsFree app laws one_user.db
unfolding app start one_user IsFree find_below add_user
no_session draw i s e = cc

login_right_example :
    (r : AuthResponse) × (w' : State app) × (login app good none one_user ≡ (ok r, w'))
    × IsLogin app laws ana one_user w' r
unfolding ana
login_right_example =
    login_right app laws good none ana
      (record {
        id = 0;
        email = ana_email;
        first_name = codes "Ana";
        last_name = codes "Sosa";
        role = Role.client;
        created_at = 0;
      })
      one_user (record { row = owns.row; hash = owns.hash }) ana-IsRight (λ t e. cc) ana_profile
      no_session

abbrev newcomer : RegisterDto
newcomer = record {
  first_name = codes "Benito";
  last_name = codes "Ruiz";
  email = codes "Benito@X.mx";
  password = codes "a longer word";
}

no_start_session : IsFree app laws start.db
unfolding app start IsFree find_below
no_start_session draw i s e = cc

register_lem_example :
    (r : AuthResponse) × (w' : State app) × (register app newcomer none start ≡ (ok r, w'))
    × IsRegistration app laws newcomer start w' r
unfolding app start Password.assert_acceptable sample Password.local_part Text.split Text.includes
register_lem_example =
    register_lem app laws newcomer none start (any-IsText _) (any-IsText _) (any-IsText _) refl
      (λ i v e. cc) no_start_session

abbrev stranger : LoginDto
stranger = record { email = codes "eva@x.mx"; password = codes "hidden word" }

other_hash : text_eq ana.email_hash (Users.email_hash app stranger.email) ≡ false
unfolding ana account app Users.email_hash Users.normalize_email blind_index trim sample encode
other_hash = refl

stranger_unknown :
    (i : ℕ) (u : User)
    → app.prisma.user one_user.db i ≡ some u
    → u.email_hash ≢ Users.email_hash app stranger.email
unfolding one_user account start find_below add_user ana Users.email_hash
stranger_unknown i u e = elim (put-inv (λ j. none) 0 i (new_user (account ana_email) 0 0 0) u e) [
  | inl (_, same) ↦ λ taken.
      cc (other_hash, (text_eq_iff _ _).1 (ap (λ (v : User). v.email_hash) (sym same) ∙ taken))
  | inr (_, there) ↦ cc
]

login_unknown_example :
    (w' : State app) × (login app stranger none one_user ≡ (err invalid_credentials, w'))
    × (w'.db ≡ one_user.db)
unfolding one_user start
login_unknown_example =
    login_unknown app laws stranger none one_user stranger_unknown (ready one_user refl)

-- The right password does not open a locked account.
login_locked_refused_example :
    (w' : State app) × (login app good none one_locked ≡ (err invalid_credentials, w'))
    × (w'.db ≡ one_locked.db)
unfolding app one_locked one_user start ana_locked sample
login_locked_refused_example =
    login_locked_refused app laws good none ana_locked 50000 one_locked locked-Owns refl
      (omega arith) (ready one_locked refl)
