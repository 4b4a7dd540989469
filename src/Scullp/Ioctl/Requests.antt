-- ===== src/Scullp/Ioctl/Requests.antt =====
-- scullp/main.c: every request of scullp_ioctl against the table in scullp.h.
use ldd.Common.{
  ℕ, ◌≡◌, true, false, not, ◌&&◌, ◌||◌, Option, none, some, List, [], if◌then◌else◌, ℤ, enotty,
  efault,
}
use ldd.Scullp.Ioctl.{
  Cmd, Request, reset, sorder, torder, gorder, qorder, xorder, horder, sqset, tqset, gqset, qqset,
  xqset, hqset, request_of, Params, defaults, UserAccess, Answer, Done, to_int, put_user, breaks,
  returns, value, error,
}

-- The six things that scullp.h describes, done to a variable: what it holds then, what is returned
-- and what reaches the address.
pub data Action : Type 0 where
  set tell get query exchange shift : Action

pub data Param : Type 0 where
  order qset : Param

abbrev pub new_value : Action → ℤ → ℕ → UserAccess → ℤ
new_value set v arg a = a.got
new_value tell v arg a = to_int arg
new_value get v arg a = v
new_value query v arg a = v
new_value exchange v arg a = a.got
new_value shift v arg a = to_int arg

abbrev pub reply : Action → ℤ → Option Answer
reply query v = some (value v)
reply shift v = some (value v)
reply other v = none

abbrev pub stored : Action → ℤ → UserAccess → List ℤ
stored get v a = put_user a v
stored exchange v a = if a.get_fails then [] else put_user a v
stored other v a = []

abbrev pub get_param : Param → Params → ℤ
get_param order p = p.scullp_order
get_param qset p = p.scullp_qset

abbrev pub opposite : Param → Param
opposite order = qset
opposite qset = order

-- The variable and the action that a request names; a reset names none.
abbrev pub meaning : Request → Option (Param × Action)
meaning reset = none
meaning sorder = some (order, set)
meaning torder = some (order, tell)
meaning gorder = some (order, get)
meaning qorder = some (order, query)
meaning xorder = some (order, exchange)
meaning horder = some (order, shift)
meaning sqset = some (qset, set)
meaning tqset = some (qset, tell)
meaning gqset = some (qset, get)
meaning qqset = some (qset, query)
meaning xqset = some (qset, exchange)
meaning hqset = some (qset, shift)

-- How a call ends: refused, reset, or one action on one of the two variables.
pub data Serves (p : Params) (c : Cmd) (arg : ℕ) (a : UserAccess) (d : Done) : Type 0 where
  unknown : request_of c ≡ none → d ≡ returns (error enotty) p → Serves p c arg a d
  denied :
      (c.ioc_read || c.ioc_write) ≡ true
      → a.access_ok ≡ false
      → d ≡ returns (error efault) p
      → Serves p c arg a d
  cleared : request_of c ≡ some reset → d ≡ breaks defaults [] → Serves p c arg a d
  acted :
      (r : Request) (q : Param) (x : Action)
      → request_of c ≡ some r
      → meaning r ≡ some (q, x)
      → ((c.ioc_read || c.ioc_write) && not a.access_ok) ≡ false
      → get_param q d.params ≡ new_value x (get_param q p) arg a
      → get_param (opposite q) d.params ≡ get_param (opposite q) p
      → d.ret ≡ reply x (get_param q p)
      → d.put ≡ stored x (get_param q p) a
      → Serves p c arg a d
