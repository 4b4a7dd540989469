-- ===== src/Demos/Hello.antt =====
-- hello.c: a character device that one process opens at a time. `none` as a return value is the end
-- of a function without a return statement.
use ldd.Common.{
  ◌++◌, Errno, length, replicate, ℕ, zero, suc, ◌+◌, ◌≤◌, ◌<◌, ◌≡◌, refl, Bool, true, false, ◌&&◌,
  Option, none, some, List, [], ◌∷◌, arith, ltb, leb, lt→ltb, ◌==◌, if◌then◌else◌, Ret, ok, err,
  ebusy, einval,
}
use ldd.Common.Registry.{Registry, register_region}

-- `is_open`, and how often `module_put` was called.
pub record Hello : Type 0 where
  pub is_open : ℕ
  pub puts : ℕ

pub hello_open : Hello → Option Ret × Hello
hello_open h = if h.is_open == 1 then (some (err ebusy), h) else (none, record h { is_open = 1 })

pub hello_release : Hello → Option Ret × Hello
hello_release h =
    if h.is_open == 0
    then (some (err ebusy), h)
    else (none, record h { is_open = 0; puts = h.puts + 1 })

-- How a read ends within a number of rounds: with a value, at the end of the function, or not.
pub data Read : Type 0 where
  gives : Ret → Read
  ends : Read
  goes_on : Read

-- The loop changes neither `bytes_read` nor `*offset`.
pub read_loop : ℕ → ℕ → ℕ → ℕ → Read
read_loop zero num_bytes bytes_read offset = goes_on
read_loop (suc rounds) num_bytes bytes_read offset =
    let rest = read_loop rounds num_bytes bytes_read offset in
    if ltb bytes_read num_bytes && ltb offset num_bytes then rest else ends

-- `offset` is a pointer, `none` for NULL.
pub hello_read : ℕ → ℕ → Option ℕ → Read
unfolding read_loop
hello_read rounds num_bytes none = gives (err einval)
hello_read rounds num_bytes (some offset) =
    let loop = read_loop rounds num_bytes 0 offset in
    if leb num_bytes offset then gives (ok 0) else loop

-- A read in front of the number of bytes that is asked for never ends.
pub hello_read-goes_on :
    (rounds num_bytes offset : ℕ)
    → offset < num_bytes
    → hello_read rounds num_bytes (some offset) ≡ goes_on
unfolding hello_read
hello_read-goes_on rounds num_bytes offset h =
    let before : leb num_bytes offset ≡ false = not_before _ _ h in
    simp before (loops rounds num_bytes 0 offset (omega arith) h)
  where
    not_before : (a b : ℕ) → b < a → leb a b ≡ false
    not_before a b h = ground arith

    loops :
        (rounds num_bytes bytes_read offset : ℕ)
        → bytes_read < num_bytes
        → offset < num_bytes
        → read_loop rounds num_bytes bytes_read offset ≡ goes_on
    loops zero num_bytes bytes_read offset h k = refl
    loops (suc rounds) num_bytes bytes_read offset h k =
        let a = lt→ltb bytes_read num_bytes h in
        let b = lt→ltb offset num_bytes k in
        simp (a, b) (loops rounds num_bytes bytes_read offset h k)

-- How many opens have succeeded, and how many releases.
pub record Count : Type 0 where
  pub hello : Hello
  pub opens : ℕ
  pub releases : ℕ

abbrev pub succeeded : Option Ret → Bool
succeeded none = true
succeeded (some r) = false

-- An open (`true`) or a release, the one after the other.
pub calls : List Bool → Count → Count
calls [] c = c
calls (true ∷ rest) c =
    let (ret, h) = hello_open c.hello in
    calls rest (record c { hello = h; opens = if succeeded ret then c.opens + 1 else c.opens })
calls (false ∷ rest) c =
    let (ret, h) = hello_release c.hello in
    calls rest
      (record c { hello = h; releases = if succeeded ret then c.releases + 1 else c.releases })

pub record IsExclusive (c : Count) : Type 0 where
  pub balance : c.opens ≡ c.releases + c.hello.is_open
  pub one : c.hello.is_open ≤ 1
  pub put : c.hello.puts ≡ c.releases

-- Over any sequence of opens and releases, the opens that succeeded are the releases that did and at
-- most one more; the module's use has been given back once for each release that succeeded.
pub calls-IsExclusive : (cs : List Bool) (c : Count) → IsExclusive c → IsExclusive (calls cs c)
unfolding calls hello_open hello_release
calls-IsExclusive [] c e = e
calls-IsExclusive (true ∷ rest) c e = calls-IsExclusive rest _ (ground arith)
calls-IsExclusive (false ∷ rest) c e = calls-IsExclusive rest _ (ground arith)

-- `message`, its 1024 bytes, and the global `num_bytes`; what register_chrdev answers is only printed.
pub record Start : Type 0 where
  pub message : List ℕ
  pub num_bytes : ℕ
  pub registry : Registry

abbrev pub text : List ℕ
text = b'H' ∷ b'e' ∷ b'l' ∷ b'l' ∷ b'o' ∷ b' ' ∷ b'w' ∷ b'o' ∷ b'r' ∷ b'l' ∷ b'd' ∷ b'.' ∷ []

-- `strncpy` fills the 1023 bytes up with NULs, and the last one is there from the start.
pub hello_start : Option Errno → Registry → Ret × Start
hello_start refused r = (
  ok 0,
  record {
    message = text ++ replicate 1012 0;
    num_bytes = length text;
    registry = elim refused [ none ↦ register_region r | some e ↦ r ];
  },
)

pub hello_end : Registry → Registry
hello_end r = r

-- After a load and an unload the device numbers are still registered, if they ever were.
pub hello_end-start :
    (refused : Option Errno) (r : Registry)
    → (hello_end (hello_start refused r).1.registry).regions
      ≡ (elim refused [ none ↦ r.regions + 1 | some e ↦ r.regions ])
unfolding hello_end hello_start
hello_end-start none r = refl
hello_end-start (some e) r = refl
