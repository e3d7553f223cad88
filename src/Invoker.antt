-- ===== src/Invoker.antt =====
-- What src/lib/Configurator.cpp uses of the invoker library: its processes, pipes and files, which
-- are parameters of the configurator, with the behaviour that they document.
use deprecated_yandex_contes.Base.{
  ℕ, Bool, List, [], ◌∷◌, Option, some, Bytes, ◌==◌, if◌then◌else◌, Result, ok, ◌≡◌, ◌≢◌,
}

-- `system::unistd::access::Id`.
pub record Owner : Type 0 where
  pub uid : ℕ
  pub gid : ℕ

-- A stream of a process: a file, which is only written to, or an end of a pipe.
pub data Stream (Pi : Type 0) : Type 0 where
  file : Bytes → Stream Pi
  read_end write_end : Pi → Stream Pi

-- What the code sets and reads of a process.
pub record Settings (I Pi : Type 0) : Type 0 where
  pub id : I
  pub executable : Bytes
  pub owner : Owner
  pub streams : ℕ → Option (Stream Pi)
  pub arguments : List Bytes
  pub terminate_group_on_crash : Bool
  pub group_waits_for_termination : Bool

-- A process: the methods that set, and `look`, which stands for those that read.
pub record ProcessOps (I Pi P : Type 0) : Type 0 where
  pub look : P → Settings I Pi
  pub set_stream : ℕ → Stream Pi → P → P
  pub set_owner_id : Owner → P → P
  pub set_arguments : Bytes → Bytes → P → P
  pub set_terminate_group_on_crash : Bool → P → P
  pub set_group_waits_for_termination : Bool → P → P

-- Each method sets what it is named for, and nothing else.
pub record IsProcess {I Pi P : Type 0} (p : ProcessOps I Pi P) : Type 0 where
  pub look-set_stream :
      (fd : ℕ) (s : Stream Pi) (x : P)
      → p.look (p.set_stream fd s x)
        ≡ record (p.look x) { streams = λ m. if m == fd then some s else (p.look x).streams m }
  pub look-set_owner_id :
      (o : Owner) (x : P) → p.look (p.set_owner_id o x) ≡ record (p.look x) { owner = o }
  pub look-set_arguments :
      (a b : Bytes) (x : P)
      → p.look (p.set_arguments a b x) ≡ record (p.look x) { arguments = a ∷ b ∷ [] }
  pub look-set_terminate_group_on_crash :
      (v : Bool) (x : P)
      → p.look (p.set_terminate_group_on_crash v x)
        ≡ record (p.look x) { terminate_group_on_crash = v }
  pub look-set_group_waits_for_termination :
      (v : Bool) (x : P)
      → p.look (p.set_group_waits_for_termination v x)
        ≡ record (p.look x) { group_waits_for_termination = v }

-- The process group makes pipes.
pub record GroupOps (Pi G : Type 0) : Type 0 where
  pub create_pipe : G → Result (Pi × G)

-- A file, as its content, its owner and its mode.
pub record Entry : Type 0 where
  pub content : Option Bytes
  pub owner : Option Owner
  pub mode : Option ℕ

-- The files of the container. `entry` is what a later reader of a path in the container finds;
-- `keep_in_root` gives the path of the same file outside of it, which `write` takes.
pub record FileOps (F : Type 0) : Type 0 where
  pub entry : F → Bytes → Entry
  pub keep_in_root : Bytes → Bytes
  pub write : Bytes → Bytes → F → Result F
  pub set_owner_id : Bytes → Owner → F → Result F
  pub set_mode : Bytes → ℕ → F → Result F

-- A call that returns did what it is named for, to the file that it names only; two paths of the
-- container name different files where `keep_in_root` tells them apart.
pub record IsFiles {F : Type 0} (f : FileOps F) : Type 0 where
  pub content-write :
      (path text : Bytes) (x y : F)
      → f.write (f.keep_in_root path) text x ≡ ok y
      → (f.entry y path).content ≡ some text
  pub entry-set_owner_id :
      (path : Bytes) (o : Owner) (x y : F)
      → f.set_owner_id path o x ≡ ok y
      → f.entry y path ≡ record (f.entry x path) { owner = some o }
  pub entry-set_mode :
      (path : Bytes) (mode : ℕ) (x y : F)
      → f.set_mode path mode x ≡ ok y
      → f.entry y path ≡ record (f.entry x path) { mode = some mode }
  pub other-write :
      (path other text : Bytes) (x y : F)
      → f.keep_in_root other ≢ f.keep_in_root path
      → f.write (f.keep_in_root path) text x ≡ ok y
      → f.entry y other ≡ f.entry x other
  pub other-set_owner_id :
      (path other : Bytes) (o : Owner) (x y : F)
      → f.keep_in_root other ≢ f.keep_in_root path
      → f.set_owner_id path o x ≡ ok y
      → f.entry y other ≡ f.entry x other
  pub other-set_mode :
      (path other : Bytes) (mode : ℕ) (x y : F)
      → f.keep_in_root other ≢ f.keep_in_root path
      → f.set_mode path mode x ≡ ok y
      → f.entry y other ≡ f.entry x other
