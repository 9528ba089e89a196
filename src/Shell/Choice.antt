-- ===== src/Shell/Choice.antt =====
-- The chain of comparisons in `execute_command` against a table of the typed text.
use orbit_os.Base.{ℕ, ◌<◌, ◌≡◌, refl, arith, ap, String, codes}
use orbit_os.Base.{◌==◌, if◌then◌else◌, List, [], ◌∷◌, length, take, true, false}
use orbit_os.Base.{Bool, Option, some}
use orbit_os.Memory.{Memory}
use orbit_os.Strings.{is_zero, IsString}
use orbit_os.Strings.Compare.{
  strlen_lem, compare_bytes, strcmp-compare_bytes, strncmp-compare_bytes, IsString-NonZero, NonZero,
  take-NonZero,
}
use orbit_os.Shell.{Places, Command, is_text, has_prefix, try, choose}

-- Equality of two texts.
unfoldable pub same : List ℕ → List ℕ → Bool
same [] [] = true
same [] (d ∷ t) = false
same (c ∷ s) [] = false
same (c ∷ s) (d ∷ t) = if c == d then same s t else false

-- The command that a line means.
unfoldable pub command_of : List ℕ → Command
command_of s =
    if length s == 0
    then Command.empty
    else if same s (codes "help")
    then Command.help
    else if same s (codes "clear")
    then Command.clear
    else if same s (codes "version")
    then Command.version
    else if same s (codes "memory")
    then Command.memory
    else if same s (codes "ls")
    then Command.ls
    else if same (take 4 s) (codes "cat ")
    then Command.cat
    else if same s (codes "date")
    then Command.date
    else if same s (codes "lspci")
    then Command.lspci
    else if same s (codes "netinfo")
    then Command.netinfo
    else if same s (codes "exit")
    then Command.exit
    else if same s (codes "dir")
    then Command.dir
    else if same s (codes "cls")
    then Command.cls
    else if same (take 5 s) (codes "type ")
    then Command.type
    else if same (take 5 s) (codes "echo ")
    then Command.echo
    else Command.unknown

-- A text stands where the linker has put it; the texts that a line is compared with do.
abbrev pub IsStored : Places → Memory → String → Type 0
IsStored places m t = IsString m (places.literal (codes t)) (codes t)

abbrev pub AreStored : Places → Memory → Type 0
AreStored places m =
    IsStored places m "help"
    × IsStored places m "clear"
    × IsStored places m "version"
    × IsStored places m "memory"
    × IsStored places m "ls"
    × IsStored places m "cat "
    × IsStored places m "date"
    × IsStored places m "lspci"
    × IsStored places m "netinfo"
    × IsStored places m "exit"
    × IsStored places m "dir"
    × IsStored places m "cls"
    × IsStored places m "type "
    × IsStored places m "echo "

if-some : (b : Bool) (c r : Command) → (if b then some c else some r) ≡ some (if b then c else r)
if-some true c r = refl
if-some false c r = refl

is_zero-compare_bytes :
    (s t : List ℕ) → NonZero s → NonZero t → is_zero (compare_bytes s t) ≡ same s t
unfolding compare_bytes same
is_zero-compare_bytes [] [] hs ht = refl
is_zero-compare_bytes [] (d ∷ t) hs ht = ground arith
is_zero-compare_bytes (c ∷ s) [] hs ht = ground arith
is_zero-compare_bytes (c ∷ s) (d ∷ t) hs ht = ground (arith, is_zero-compare_bytes s t hs.1 ht.1)

module _ (places : Places) (fuel : ℕ) (m : Memory) (cmd : ℕ) (s : List ℕ) (line : IsString m cmd s)
    (enough : length s < fuel) where
  is_text_lem :
      (t : String) → IsStored places m t → is_text places fuel m cmd t ≡ some (same s (codes t))
  is_text_lem t there =
      let b = places.literal (codes t) in
      rw (strcmp-compare_bytes m cmd b s (codes t) fuel line there enough) (
        ap some (
          is_zero-compare_bytes s (codes t) (IsString-NonZero m cmd s line)
            (IsString-NonZero m b (codes t) there)))

  has_prefix_lem :
      (t : String) (n : ℕ)
      → IsStored places m t
      → has_prefix places fuel m cmd t n ≡ same (take n s) (take n (codes t))
  has_prefix_lem t n there =
      let b = places.literal (codes t) in
      rw (strncmp-compare_bytes m cmd b n s (codes t) line there) (
        is_zero-compare_bytes (take n s) (take n (codes t))
          (take-NonZero n s (IsString-NonZero m cmd s line))
          (take-NonZero n (codes t) (IsString-NonZero m b (codes t) there)))

  try_lem :
      (t : String) (c r : Command) (rest : Option Command)
      → IsStored places m t
      → rest ≡ some r
      → try places fuel m cmd t c rest ≡ some (if same s (codes t) then c else r)
  try_lem t c r rest there found = rw (is_text_lem t there, found) (if-some (same s (codes t)) c r)

  prefix_lem :
      (t : String) (n : ℕ) (c r : Command) (rest : Option Command)
      → IsStored places m t
      → take n (codes t) ≡ codes t
      → rest ≡ some r
      → (if has_prefix places fuel m cmd t n then some c else rest)
        ≡ some (if same (take n s) (codes t) then c else r)
  prefix_lem t n c r rest there whole found =
      rw (has_prefix_lem t n there, whole, found) (if-some (same (take n s) (codes t)) c r)

  -- For a line in memory as a string and enough fuel, the chain of comparisons ends, and it chooses
  -- the command that the table names for the line.
  pub choose-command_of : AreStored places m → choose places fuel m cmd ≡ some (command_of s)
  unfolding choose command_of
  choose-command_of
        (help, clear, version, memory, ls, cat, date, lspci, netinfo, exit, dir, cls, type, echo) =
      let arguments =
        prefix_lem "type " 5 Command.type _ _ type refl
          (prefix_lem "echo " 5 Command.echo Command.unknown _ echo refl refl) in
      let later = try_lem "date" Command.date _ _ date (
        try_lem "lspci" Command.lspci _ _ lspci (
          try_lem "netinfo" Command.netinfo _ _ netinfo (
            try_lem "exit" Command.exit _ _ exit (
              try_lem "dir" Command.dir _ _ dir (try_lem "cls" Command.cls _ _ cls arguments))))) in
      let first = try_lem "help" Command.help _ _ help (
        try_lem "clear" Command.clear _ _ clear (
          try_lem "version" Command.version _ _ version (
            try_lem "memory" Command.memory _ _ memory (
              try_lem "ls" Command.ls _ _ ls
                (prefix_lem "cat " 4 Command.cat _ _ cat refl later))))) in
      rw (strlen_lem m cmd s fuel line enough, first) (if-some (length s == 0) Command.empty _)
