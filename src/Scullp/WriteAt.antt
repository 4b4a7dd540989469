-- ===== src/Scullp/WriteAt.antt =====
-- scullp/main.c, scullp_write: the whole call.
use ldd.Common.{
  ℕ, ◌+◌, ◌≤◌, ◌<◌, ◌≡◌, refl, sym, ap, ◌∙◌, subst, Bool, true, false, Option, some, List, length,
  replicate, take, store, ltb, if◌then◌else◌, ok, erestartsys,
}
use ldd.Common.User.{UserCopy}
use ldd.Scullp.{Dev, Done, get_item, get_quantum, pages, clip, scullp_write}
use ldd.Scullp.Follow.{
  quantum_at, FollowedDev, get_item-followed, scullp_follow-FollowedDev, scullp_follow_total,
}
use ldd.Scullp.Valid.{IsValid, followed-IsValid}
use ldd.Scullp.Locate.{item_of_pos, s_pos_of, s_pos-lt}
use ldd.Scullp.Stores.{Base, Stores, Good}
use ldd.Scullp.Write.{allocate_array-Good}

module _ (page_size : ℕ) (d : Dev) where
  -- What was said of the device with its list made longer holds of the device itself.
  module _ (n : ℕ) (e : Dev) (f : FollowedDev d n e) where
    same_at : (i t : ℕ) → quantum_at e i t ≡ quantum_at d i t
    same_at i t = ap (λ x. get_quantum x.quanta t) (get_item-followed d n e f i)

    same_clip : (q count : ℕ) → clip page_size e q count ≡ clip page_size d q count
    same_clip q count = ap (λ x. clip page_size x q count) f.grown

    same_size : e.size ≡ d.size
    same_size = ap (λ x. x.size) f.grown

    Base-back : (item s : ℕ) (b : List ℕ) → Base page_size e item s b → Base page_size d item s b
    Base-back item s b (Base.old h) = Base.old (sym (same_at item s) ∙ h)
    Base-back item s b (Base.blank h k) =
        Base.blank (sym (same_at item s) ∙ h)
          (k ∙ ap (λ x. replicate (pages page_size x.order) 0) (get_item-followed d n e f item))

    Stores-back :
        (f_pos : ℕ) (buf : List ℕ) (count item s q : ℕ) (r : Done)
        → Stores page_size e f_pos buf count item s q r
        → Stores page_size d f_pos buf count item s q r
    Stores-back f_pos buf count item s q r (Stores.stored b base ret at size hit rest) =
        let c = same_clip q count in
        Stores.stored b (Base-back item s b base) (ret ∙ ap (λ k. ok k) c)
          (at ∙ ap (λ k. f_pos + k) c)
          (size ∙ ap (λ k. if ltb k r.f_pos then r.f_pos else k) same_size)
          (hit ∙ ap (λ k. some (store b q (take k buf))) c) (λ i t ne. rest i t ne ∙ same_at i t)
    Stores-back f_pos buf count item s q r (Stores.failed x ret at size rest) =
        Stores.failed x ret at (size ∙ same_size) (λ i t ne. rest i t ne ∙ same_at i t)

    Good-back :
        (f_pos : ℕ) (buf : List ℕ) (count item s q : ℕ) (o : Option Done)
        → Good page_size e f_pos buf count item s q o
        → Good page_size d f_pos buf count item s q o
    Good-back f_pos buf count item s q o g = record {
      result = g.result;
      returns = g.returns;
      effect = Stores-back f_pos buf count item s q g.result g.effect;
      valid = g.valid;
      shape = (g.shape.0 ∙ ap (λ x. x.first.order) f.grown, g.shape.1 ∙ ap (λ x. x.qset) f.grown);
    }

  -- `q_pos` is the quantum's number in this code, so what is stored must fit there.
  pub record Fits (f_pos count avail : ℕ) : Type 0 where
    -- There is memory for the items that are missing.
    pub memory : item_of_pos page_size d f_pos ≤ length d.next + avail
    -- The bytes fit in the block behind offset `q_pos`.
    pub block :
        s_pos_of page_size d f_pos + clip page_size d (s_pos_of page_size d f_pos) count
        ≤ pages page_size (get_item d (item_of_pos page_size d f_pos)).order

  pub scullp_write-Good :
      (u : UserCopy) (f_pos : ℕ) (buf : List ℕ) (count : ℕ) (interrupted : Bool) (avail : ℕ)
      (array_ok pages_ok : Bool)
      → 0 < page_size
      → IsValid page_size d
      → Fits f_pos count avail
      → let s = s_pos_of page_size d f_pos in
        Good page_size d f_pos buf count
          (item_of_pos page_size d f_pos)
          s
          s
          (scullp_write page_size u d f_pos buf count interrupted avail array_ok pages_ok)
  unfolding scullp_write
  scullp_write-Good u f_pos buf count true avail array_ok pages_ok h v fit = record {
    result = _;
    returns = refl;
    effect = Stores.failed erestartsys refl refl refl (λ i t _. refl);
    valid = v;
    shape = (refl, refl);
  }
  scullp_write-Good u f_pos buf count false avail array_ok pages_ok h v fit =
      let item = item_of_pos page_size d f_pos in
      let s = s_pos_of page_size d f_pos in
      let (e, k) = scullp_follow_total d item avail fit.memory in
      let f = scullp_follow-FollowedDev d item avail e k in
      let reach : item ≤ length e.next =
        subst (λ x. item ≤ length x.next) (sym f.grown) f.followed.reaches in
      let s_in : s < e.qset =
        subst (λ x. s < x.qset) (sym f.grown) (s_pos-lt page_size d f_pos h v.qset_pos) in
      let room : s + clip page_size e s count ≤ pages page_size (get_item e item).order =
        rw (same_clip item e f s count, get_item-followed d item e f item) fit.block in
      rw (k, scullp_write)
        (Good-back item e f f_pos buf count item s s _ (
          allocate_array-Good page_size u e (followed-IsValid page_size d item e f v) f_pos buf
            count item s s reach s_in room array_ok pages_ok))
