-- ===== src/Scullp/Ioctl.antt =====
-- scullp/main.c, scullp_ioctl: the two module parameters that the commands of scullp.h read and
-- write. A command is what the macros of its number give (macros.c describes them); a C `int` is a ℤ.
pub mod Requests
use ldd.Common.{
  ℕ, ◌-◌, ◌%◌, ◌^◌, ◌≡◌, refl, Bool, true, false, not, ◌&&◌, ◌||◌, Option, none, some, List, [],
  ◌∷◌, arith, ltb, ◌==◌, if◌then◌else◌, get_elem?, get_elem?-past, ltb→lt, inl, inr, ℤ, pos, negsuc,
  Errno, enotty, efault, Bool-cases, Option-cases,
}

-- _IOC_DIR (its two bits), _IOC_TYPE, _IOC_NR and _IOC_SIZE of a command.
pub record Cmd : Type 0 where
  pub ioc_read : Bool
  pub ioc_write : Bool
  pub ioc_type : ℕ
  pub ioc_nr : ℕ
  pub ioc_size : ℕ

-- SCULLP_IOCRESET, SCULLP_IOCSORDER and so on, in the order of their numbers.
pub data Request : Type 0 where
  reset sorder torder gorder qorder xorder horder sqset tqset gqset qqset xqset hqset : Request

abbrev pub requests : List Request
requests =
    reset ∷ sorder ∷ torder ∷ gorder ∷ qorder ∷ xorder ∷ horder ∷ sqset ∷ tqset ∷ gqset ∷ qqset
    ∷ xqset ∷ hqset ∷ []

-- _IO, _IOW, _IOR and _IOWR with `int`: which bits of the direction and which size a request has.
abbrev pub io : Cmd → Bool
io c = not c.ioc_read && (not c.ioc_write && (c.ioc_size == 0))

abbrev pub iow : Cmd → Bool
iow c = not c.ioc_read && (c.ioc_write && (c.ioc_size == 4))

abbrev pub ior : Cmd → Bool
ior c = c.ioc_read && (not c.ioc_write && (c.ioc_size == 4))

abbrev pub iowr : Cmd → Bool
iowr c = c.ioc_read && (c.ioc_write && (c.ioc_size == 4))

abbrev pub has_form : Cmd → Request → Bool
has_form c sorder = iow c
has_form c gorder = ior c
has_form c xorder = iowr c
has_form c sqset = iow c
has_form c gqset = ior c
has_form c xqset = iowr c
has_form c r = io c

-- SCULLP_IOC_MAGIC and SCULLP_IOC_MAXNR.
abbrev pub magic : ℕ
magic = b'K'

abbrev pub max_nr : ℕ
max_nr = 12

-- The case of the switch that a command equals.
abbrev pub request_of : Cmd → Option Request
request_of c = elim (get_elem? requests c.ioc_nr) [
  | none ↦ none
  | some r ↦ if (c.ioc_type == magic) && has_form c r then some r else none
]

pub record Params : Type 0 where
  pub scullp_order : ℤ
  pub scullp_qset : ℤ

-- SCULLP_ORDER and SCULLP_QSET.
abbrev pub defaults : Params
defaults = record { scullp_order = pos 0; scullp_qset = pos 500 }

-- Whether `access_ok` allows the address, whether `__get_user` fails and what it leaves in the
-- variable, and whether `__put_user` fails.
pub record UserAccess : Type 0 where
  pub access_ok : Bool
  pub get_fails : Bool
  pub got : ℤ
  pub put_fails : Bool

pub data Answer : Type 0 where
  value : ℤ → Answer
  error : Errno → Answer

-- The value that the call returns (`none` where it ends without a return statement), the parameters,
-- and what reaches the address.
pub record Done : Type 0 where
  pub ret : Option Answer
  pub params : Params
  pub put : List ℤ

-- An `unsigned long` stored in an `int`.
abbrev pub to_int : ℕ → ℤ
to_int arg = let w = arg % 2 ^ 32 in if ltb w (2 ^ 31) then pos w else negsuc (2 ^ 32 - 1 - w)

abbrev pub put_user : UserAccess → ℤ → List ℤ
put_user a v = if a.put_fails then [] else v ∷ []

-- What leaves the switch by `break` comes to the end of the function: `return ret` is inside it.
abbrev pub breaks : Params → List ℤ → Done
breaks p put = record { ret = none; params = p; put = put }

abbrev pub returns : Answer → Params → Done
returns v p = record { ret = some v; params = p; put = [] }

-- The switch.
pub serve : Request → Params → ℕ → UserAccess → Done
serve reset p arg a = breaks defaults []
serve sorder p arg a = breaks (record p { scullp_order = a.got }) []
serve torder p arg a = breaks (record p { scullp_order = to_int arg }) []
serve gorder p arg a = breaks p (put_user a p.scullp_order)
serve qorder p arg a = returns (value p.scullp_order) p
serve xorder p arg a =
    breaks (record p { scullp_order = a.got })
      (if a.get_fails then [] else put_user a p.scullp_order)
serve horder p arg a = returns (value p.scullp_order) (record p { scullp_order = to_int arg })
serve sqset p arg a = breaks (record p { scullp_qset = a.got }) []
serve tqset p arg a = breaks (record p { scullp_qset = to_int arg }) []
serve gqset p arg a = breaks p (put_user a p.scullp_qset)
serve qqset p arg a = returns (value p.scullp_qset) p
serve xqset p arg a =
    breaks (record p { scullp_qset = a.got }) (if a.get_fails then [] else put_user a p.scullp_qset)
serve hqset p arg a = returns (value p.scullp_qset) (record p { scullp_qset = to_int arg })

pub scullp_ioctl : Params → Cmd → ℕ → UserAccess → Done
unfolding serve
scullp_ioctl p c arg a =
    if not (c.ioc_type == magic)
    then returns (error enotty) p
    else (if ltb max_nr c.ioc_nr
        then returns (error enotty) p
        else (if (c.ioc_read || c.ioc_write) && not a.access_ok
            then returns (error efault) p
            else elim (request_of c) [
              | none ↦ returns (error enotty) p
              | some r ↦ serve r p arg a
            ]))
