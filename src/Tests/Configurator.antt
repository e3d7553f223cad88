-- ===== src/Tests/Configurator.antt =====
-- A game of two solutions is configured, and its killer and its broker start.
pub mod Processes
use deprecated_yandex_contes.Base.{
  ℕ, suc, true, false, [], ◌∷◌, none, some, Bytes, codes, length, ◌==◌, if◌then◌else◌, ok, err, pos,
  ok-injective, ◌≡◌, ◌≢◌, refl, sym, ap, ◌∙◌, inl, inr, arith, Bool-cases,
}
use deprecated_yandex_contes.Invoker.{Settings, ProcessOps, IsProcess, Entry, FileOps, IsFiles}
use deprecated_yandex_contes.Killer.Impl.{same_name}
use deprecated_yandex_contes.Killer.Impl.Safety.{same_name-eq}
use deprecated_yandex_contes.Broker.State.{text_protocol}
use deprecated_yandex_contes.Configurator.{
  Configurator, Libraries, connect, connect_all, dump_options, set_up, configure,
}
use deprecated_yandex_contes.Configurator.Spec.{Wired, Guarded}
use deprecated_yandex_contes.Configurator.Once.{configure-once}
use deprecated_yandex_contes.Configurator.Wired.{configure-Wired}
use deprecated_yandex_contes.Configurator.Guarded.{configure-Guarded}
use deprecated_yandex_contes.Tests.Json.{broker_json, broker_json-IsJson, killer_json}

-- A process is what is set of it, and pipes are numbers.
abbrev process : ProcessOps ℕ ℕ (Settings ℕ ℕ)
process = record {
  look = λ x. x;
  set_stream = λ fd s x. record x { streams = λ m. if m == fd then some s else x.streams m };
  set_owner_id = λ o x. record x { owner = o };
  set_arguments = λ a b x. record x { arguments = a ∷ b ∷ [] };
  set_terminate_group_on_crash = λ v x. record x { terminate_group_on_crash = v };
  set_group_waits_for_termination = λ v x. record x { group_waits_for_termination = v };
}

pub process-IsProcess : IsProcess process
process-IsProcess = record {
  look-set_stream = λ fd s x. refl;
  look-set_owner_id = λ o x. refl;
  look-set_arguments = λ a b x. refl;
  look-set_terminate_group_on_crash = λ v x. refl;
  look-set_group_waits_for_termination = λ v x. refl;
}

-- The files, by their paths.
abbrev Files : Type 0
Files = Bytes → Entry

abbrev at : Bytes → (Entry → Entry) → Files → Files
at path change f p = if same_name p path then change (f path) else f p

same_name_self : (p : Bytes) → same_name p p ≡ true
same_name_self [] = refl
same_name_self (b ∷ bs) = ground (arith, same_name_self bs)

at_self :
    (path : Bytes) (change : Entry → Entry) (f : Files) → at path change f path ≡ change (f path)
at_self path change f = rw (same_name_self path) refl

at-other :
    (path other : Bytes) (change : Entry → Entry) (f : Files)
    → other ≢ path
    → at path change f other ≡ f other
at-other path other change f ne = elim (Bool-cases (same_name other path)) [
  | inl e ↦ absurd (ne (same_name-eq other path e))
  | inr d ↦ rw d refl
]

abbrev filesystem : FileOps Files
filesystem = record {
  entry = λ f path. f path;
  keep_in_root = λ path. path;
  write = λ path text f. ok (at path (λ e. record e { content = some text }) f);
  set_owner_id = λ path o f. ok (at path (λ e. record e { owner = some o }) f);
  set_mode = λ path m f. ok (at path (λ e. record e { mode = some m }) f);
}

behind : {x y : Files} (path : Bytes) → ok x ≡ ok y → y path ≡ x path
behind path e = ap (λ (f : Files). f path) (sym (ok-injective e))

pub filesystem-IsFiles : IsFiles filesystem
filesystem-IsFiles = record {
  content-write = λ path text x y e.
      ap (λ (t : Entry). t.content)
        (behind path e ∙ at_self path (λ t. record t { content = some text }) x);
  entry-set_owner_id =
      λ path o x y e. behind path e ∙ at_self path (λ t. record t { owner = some o }) x;
  entry-set_mode = λ path m x y e. behind path e ∙ at_self path (λ t. record t { mode = some m }) x;
  other-write = λ path other text x y ne e.
      behind other e ∙ at-other path other (λ t. record t { content = some text }) x ne;
  other-set_owner_id = λ path other o x y ne e.
      behind other e ∙ at-other path other (λ t. record t { owner = some o }) x ne;
  other-set_mode = λ path other m x y ne e.
      behind other e ∙ at-other path other (λ t. record t { mode = some m }) x ne;
}

abbrev pub libraries : Libraries ℕ ℕ (Settings ℕ ℕ) ℕ Files
libraries = record {
  process = process;
  pipes = record { create_pipe = λ n. ok (n, suc n) };
  filesystem = filesystem;
  broker_json = broker_json;
  killer_json = killer_json;
  size_to_string = λ n. n ∷ [];
}

abbrev started_as : ℕ → Settings ℕ ℕ
started_as id = record {
  id = id;
  executable = codes "/bin/";
  owner = record { uid = id; gid = id };
  streams = λ _. none;
  arguments = [];
  terminate_group_on_crash = true;
  group_waits_for_termination = true;
}

abbrev pub game : Configurator (Settings ℕ ℕ) ℕ Files
game = record {
  files = λ _. record { content = none; owner = none; mode = none };
  group = 0;
  broker = started_as 1;
  killer = started_as 2;
  judge = started_as 3;
  solutions = started_as 4 ∷ started_as 5 ∷ [];
  protocol = text_protocol;
  killer_log = codes "/k";
  judge_log = codes "/j";
  broker_log = codes "/b";
  tokenizer = codes "/split_char";
  default_limits = record { user_time_limit = pos 5; real_time_limit = pos 9 };
  default_argument = codes ",";
  configured = false;
}

abbrev pub broker_config : Bytes
broker_config = codes "/broker"

abbrev pub killer_config : Bytes
killer_config = codes "/to_kill"

pub configs-ne : broker_config ≢ killer_config
configs-ne =
    λ e. let same : length broker_config ≡ length killer_config = ap length e in omega (arith, same)

unfoldable pub configured_game : Configurator (Settings ℕ ℕ) ℕ Files
unfolding configure set_up connect connect_all dump_options
configured_game = elim (configure libraries broker_config killer_config game) [
  | ok c ↦ c
  | err _ ↦ game
]

pub configured : configure libraries broker_config killer_config game ≡ ok configured_game
unfolding configured_game configure set_up connect connect_all dump_options
configured = refl

configure-Wired_example : Wired libraries broker_config game configured_game
configure-Wired_example =
    configure-Wired libraries process-IsProcess filesystem-IsFiles broker_json-IsJson broker_config
      killer_config game configured_game refl configs-ne configured

configure-Guarded_example : Guarded libraries killer_config game configured_game
configure-Guarded_example =
    configure-Guarded libraries process-IsProcess filesystem-IsFiles broker_config killer_config
      game configured_game refl configured

configure-once_example :
    configure libraries killer_config broker_config configured_game ≡ ok configured_game
configure-once_example =
    configure-once libraries broker_config killer_config killer_config broker_config game
      configured_game configured
