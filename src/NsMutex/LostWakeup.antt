-- ===== src/NsMutex/LostWakeup.antt =====
-- `ns_mutex_release` of exersises/concurrency/semaphores/exercise/mutex-nostarve.c leaves `tail` as
-- it was when it takes the last node off the queue. From then on `head` stays NULL, and whoever is
-- appended behind `tail` is never woken.
use osvcp.Prelude.{
  ℕ, suc, ◌≡◌, ◌≢◌, ◌∙◌, refl, sym, subst, ap, inl, inr, Option, none, some, List, [], ◌∷◌, arith,
  get_elem?, adjust, sum, sum-append, sum-adjust, sum-adjust_same, get_elem?-adjust,
  get_elem?-adjust_other, get_elem?-append, ◌==◌, ==_iff, Bool-cases,
}
use osvcp.NsMutex.{
  Place, created, testing, found_free, took, found_locked, linked, queued, waiting, holding,
  releasing, found_empty, found_next, posting, released, gone, Node, Mutex, new_node, goes_to,
  points_to, woken, move, At, Step, create, wait_guard, find_free, take, post_taken, find_locked,
  link_tail, link_head, set_tail, post_queued, wake, release, find_empty, unlock, find_next, pop,
  post_next, post_released, Steps, stay, more,
}
use osvcp.NsMutex.Exclusion.{by, move-by}

-- The thread is about to wake another.
abbrev pub hands_over : Place → ℕ
hands_over (found_next h) = 1
hands_over (posting h) = 1
hands_over _ = 0

-- The thread of a node waits, and nothing was posted for it.
abbrev pub Waits : ℕ → List Node → Type 0
Waits i nodes = (n : Node) × (get_elem? nodes i ≡ some n) × (n.place ≡ waiting) × (n.sem ≡ 0)

-- The queue is empty although `tail` is set, and a thread waits.
pub record IsStuck (i : ℕ) (m : Mutex) : Type 0 where
  pub head : m.head ≡ none
  pub tail : (t : ℕ) × (m.tail ≡ some t)
  pub nobody : sum (by hands_over) m.nodes ≡ 0
  pub waits : Waits i m.nodes

some_eq : {x y : Node} → some x ≡ some y → x ≡ y
some_eq h = ground arith

-- The node of a thread that is elsewhere is another.
differs : (j i : ℕ) (p : Place) (m : Mutex) → (p ≡ waiting → ⊥) → At m j p → Waits i m.nodes → j ≢ i
differs j i p m ne (n, e, at_p) (k, f, at_waiting, s) same =
    let h : some n ≡ some k = sym e ∙ subst (λ x. get_elem? m.nodes x ≡ some k) (sym same) f in
    ne (sym at_p ∙ ap (λ (x : Node). x.place) (some_eq h) ∙ at_waiting)

pending :
    (m : Mutex) (j i k : ℕ) (n : Node)
    → get_elem? m.nodes j ≡ some n
    → n.sem ≡ suc k
    → Waits i m.nodes
    → j ≢ i
pending m j i k n e z (o, f, w, s) same =
    let h : some n ≡ some o = sym e ∙ subst (λ x. get_elem? m.nodes x ≡ some o) (sym same) f in
    let sems : n.sem ≡ o.sem = ap (λ (x : Node). x.sem) (some_eq h) in omega (arith, sems, z, s)

Waits-adjust :
    (f : Node → Node) (j i : ℕ) (nodes : List Node)
    → j ≢ i
    → Waits i nodes
    → Waits i (adjust f j nodes)
Waits-adjust f j i nodes ne (n, e, w, z) = (n, get_elem?-adjust_other f j i nodes ne ∙ e, w, z)

Waits-points_to :
    (j t i : ℕ) (nodes : List Node) → Waits i nodes → Waits i (adjust (points_to j) t nodes)
Waits-points_to j t i nodes (n, e, w, z) = elim (Bool-cases (t == i)) [
  | inl q ↦
      let same : t ≡ i = (==_iff t i).0 q in
      (
        points_to j n,
        subst (λ x. get_elem? (adjust (points_to j) t nodes) x ≡ some (points_to j n)) same
            (get_elem?-adjust (points_to j) t nodes n
              (subst (λ x. get_elem? nodes x ≡ some n) (sym same) e)),
        w,
        z,
      )
  | inr q ↦ Waits-adjust (points_to j) t i nodes (λ e. ground (arith, ==_iff t i)) (n, e, w, z)
]

-- A move keeps the thread waiting, unless it is a move to wake somebody.
module _ (i j : ℕ) (p q : Place) (m : Mutex) where
  Waits-move : (p ≡ waiting → ⊥) → At m j p → Waits i m.nodes → Waits i (move j q m).nodes
  Waits-move ne a w = Waits-adjust (goes_to q) j i m.nodes (differs j i p m ne a w) w

  nobody-move :
      hands_over q ≡ 0
      → At m j p
      → sum (by hands_over) m.nodes ≡ 0
      → sum (by hands_over) (move j q m).nodes ≡ 0
  nobody-move z a s = omega (arith, z, s, move-by j p q m hands_over a)

  busy : hands_over p ≡ 1 → hands_over q ≡ 0 → At m j p → sum (by hands_over) m.nodes ≡ 0 → ⊥
  busy o z a s = omega (arith, o, z, s, move-by j p q m hands_over a)

none-some : {o : Option ℕ} {x : ℕ} → o ≡ none → o ≡ some x → ⊥
none-some e f = absurd (ground arith)

-- A move that leaves the queue as it is.
IsStuck-on :
    (i j : ℕ) (p q : Place) (m m' : Mutex)
    → (p ≡ waiting → ⊥)
    → hands_over q ≡ 0
    → At m j p
    → IsStuck i m
    → m'.head ≡ m.head
    → m'.tail ≡ m.tail
    → m'.nodes ≡ (move j q m).nodes
    → IsStuck i m'
IsStuck-on i j p q m m' ne z a s head tail nodes = record {
  head = head ∙ s.head;
  tail = (s.tail.0, tail ∙ s.tail.1);
  nobody = ap (sum (by hands_over)) nodes ∙ nobody-move i j p q m z a s.nobody;
  waits = subst (Waits i) (sym nodes) (Waits-move i j p q m ne a s.waits);
}

Step-IsStuck : (i : ℕ) {m m' : Mutex} → Step m m' → IsStuck i m → IsStuck i m'
Step-IsStuck i (create m) s =
    let (n, e, w, z) = s.waits in
    record {
      head = s.head;
      tail = s.tail;
      nobody = omega (arith, s.nobody, sum-append (by hands_over) m.nodes (new_node ∷ []));
      waits = (n, get_elem?-append m.nodes (new_node ∷ []) i n e, w, z);
    }
Step-IsStuck i (link_tail m j t a e) s = record {
  head = s.head;
  tail = s.tail;
  nobody = omega (
    arith,
    sum-adjust_same (by hands_over) (points_to j) t (move j linked m).nodes (λ n. refl),
    nobody-move i j found_locked linked m refl a s.nobody,
  );
  waits =
      Waits-points_to j t i (move j linked m).nodes
        (Waits-move i j found_locked linked m (λ e. cc) a s.waits);
}
Step-IsStuck i (link_head m j a e) s = absurd (none-some e s.tail.1)
Step-IsStuck i (set_tail m j a) s = record {
  head = s.head;
  tail = (j, refl);
  nobody = nobody-move i j linked queued m refl a s.nobody;
  waits = Waits-move i j linked queued m (λ e. cc) a s.waits;
}
Step-IsStuck i (wake m j k n e w z) s = record {
  head = s.head;
  tail = s.tail;
  nobody =
      omega (arith, s.nobody, sum-adjust (by hands_over) (woken k) j m.nodes n e, ap hands_over w);
  waits = Waits-adjust (woken k) j i m.nodes (pending m j i k n e z s.waits) s.waits;
}
Step-IsStuck i (find_next m j h a e) s = absurd (none-some s.head e)
Step-IsStuck i (pop m j h n a e) s =
    absurd (busy i j (found_next h) released m refl refl a s.nobody)
Step-IsStuck i (post_next m j h n a e) s =
    absurd (busy i j (posting h) released m refl refl a s.nobody)
Step-IsStuck i (wait_guard m j k a e) s =
    IsStuck-on i j created testing m _ (λ e. cc) refl a s refl refl refl
Step-IsStuck i (find_free m j a e) s =
    IsStuck-on i j testing found_free m _ (λ e. cc) refl a s refl refl refl
Step-IsStuck i (take m j a) s = IsStuck-on i j found_free took m _ (λ e. cc) refl a s refl refl refl
Step-IsStuck i (post_taken m j a) s =
    IsStuck-on i j took holding m _ (λ e. cc) refl a s refl refl refl
Step-IsStuck i (find_locked m j a e) s =
    IsStuck-on i j testing found_locked m _ (λ e. cc) refl a s refl refl refl
Step-IsStuck i (post_queued m j a) s =
    IsStuck-on i j queued waiting m _ (λ e. cc) refl a s refl refl refl
Step-IsStuck i (release m j k a e) s =
    IsStuck-on i j holding releasing m _ (λ e. cc) refl a s refl refl refl
Step-IsStuck i (find_empty m j a e) s =
    IsStuck-on i j releasing found_empty m _ (λ e. cc) refl a s refl refl refl
Step-IsStuck i (unlock m j a) s =
    IsStuck-on i j found_empty released m _ (λ e. cc) refl a s refl refl refl
Step-IsStuck i (post_released m j a) s =
    IsStuck-on i j released gone m _ (λ e. cc) refl a s refl refl refl

Steps-IsStuck : (i : ℕ) {m m' : Mutex} → Steps m m' → IsStuck i m → IsStuck i m'
Steps-IsStuck i (stay m) s = s
Steps-IsStuck i (more r t) s = Step-IsStuck i t (Steps-IsStuck i r s)

-- Once `head` is NULL while `tail` is not, and nobody is about to wake another, a thread that waits
-- then, in vain so far, waits for ever: whatever the threads do from there, new ones included, it
-- still waits, and the queue still looks empty to `ns_mutex_release`.
pub Steps-lost :
    (i : ℕ) (m m' : Mutex) → Steps m m' → IsStuck i m → Waits i m'.nodes × (m'.head ≡ none)
Steps-lost i m m' r s = let t = Steps-IsStuck i r s in (t.waits, t.head)
