-- ===== src/Netpack/Table.antt =====
-- The packets that are not complete, as a table by connection.
use skynet_gameserver.Prelude.{
  ℕ, ◌≡◌, refl, ap, sym, Option, none, some, List, [], ◌∷◌, ◌==◌, if◌then◌else◌, arith, at, at_self,
  at_ne, ℕ_discrete,
}
use skynet_gameserver.Netpack.{
  Uncomplete, Queue, hash_fd, take_out, find_uncomplete, get_queue, save_uncomplete,
}

-- The specification: the first node of the connection.
unfoldable pub find_in : List Uncomplete → ℕ → Option Uncomplete
find_in [] fd = none
find_in (uc ∷ next) fd = let rest = find_in next fd in if uc.id == fd then some uc else rest

-- No connection has two nodes.
abbrev pub Once : List Uncomplete → Type 0
Once [] = Unit {0}
Once (uc ∷ next) = (find_in next uc.id ≡ none) × Once next

-- What waits for a connection.
unfoldable pub waiting : Queue → ℕ → Option Uncomplete
waiting q fd = find_in (q.hash (hash_fd fd)) fd

pub find_in-id :
    (l : List Uncomplete) (fd : ℕ) (uc : Uncomplete) → find_in l fd ≡ some uc → uc.id ≡ fd
unfolding find_in
find_in-id [] fd uc e = absurd (cc)
find_in-id (x ∷ l) fd uc e = ground (arith, find_in-id l fd uc)

take_out-eq : (l : List Uncomplete) (fd : ℕ) → (take_out l fd).0 ≡ find_in l fd
unfolding take_out find_in
take_out-eq [] fd = refl
take_out-eq (x ∷ l) fd = ground (arith, take_out-eq l fd)

find_in-take_out :
    (l : List Uncomplete) (fd x : ℕ)
    → Once l
    → find_in (take_out l fd).1 x ≡ (if fd == x then none else find_in l x)
unfolding take_out find_in
find_in-take_out [] fd x o = ground arith
find_in-take_out (uc ∷ l) fd x o = ground (arith, find_in-take_out l fd x o.1, o.0)

Once-take_out : (l : List Uncomplete) (fd : ℕ) → Once l → Once (take_out l fd).1
unfolding take_out
Once-take_out [] fd o = tt
Once-take_out (uc ∷ l) fd o =
    ground (arith, Once-take_out l fd o.1, find_in-take_out l fd uc.id o.1, o.0)

abbrev pub IsTable : Queue → Type 0
IsTable q = (h : ℕ) → Once (q.hash h)

-- `find_uncomplete` gives what waits for the connection, and takes that out of the table.
pub record Found (q : Queue) (fd : ℕ) (r : Option Uncomplete × Option Queue) : Type 0 where
  pub found : r.0 ≡ waiting q fd
  pub table : IsTable (get_queue r.1)
  pub others : (x : ℕ) → waiting (get_queue r.1) x ≡ (if fd == x then none else waiting q x)
  pub same_cap : (get_queue r.1).cap ≡ q.cap
  pub same_head : (get_queue r.1).head ≡ q.head
  pub same_tail : (get_queue r.1).tail ≡ q.tail
  pub same_queue : (get_queue r.1).queue ≡ q.queue

Once-at :
    (f : ℕ → List Uncomplete) (h : ℕ) (l : List Uncomplete)
    → ((k : ℕ) → Once (f k))
    → Once l
    → (k : ℕ) → Once (at f h l k)
Once-at f h l o o' k = elim (ℕ_discrete h k) [
  | yes e ↦ rw (sym e, at_self f h l) o'
  | no ne ↦ rw (at_ne f h l k ne) (o k)
]

pub find_uncomplete-Found :
    (slot : Option Queue) (fd : ℕ)
    → IsTable (get_queue slot)
    → Found (get_queue slot) fd (find_uncomplete slot fd)
unfolding find_uncomplete get_queue waiting find_in
find_uncomplete-Found none fd o = record {
  found = refl;
  table = o;
  others = λ x. ground arith;
  same_cap = refl;
  same_head = refl;
  same_tail = refl;
  same_queue = refl;
}
find_uncomplete-Found (some q) fd o =
    let h = hash_fd fd in
    record {
      found = take_out-eq (q.hash h) fd;
      table = Once-at q.hash h _ o (Once-take_out (q.hash h) fd (o h));
      others = λ x. elim (ℕ_discrete h (hash_fd x)) [
        | yes e ↦
            rw (sym e, at_self q.hash h (take_out (q.hash h) fd).1)
              (find_in-take_out (q.hash h) fd x (o h))
        | no ne ↦
            rw (at_ne q.hash h (take_out (q.hash h) fd).1 (hash_fd x) ne)
              (ground (arith, λ (e : fd ≡ x). ne (ap hash_fd e)))
      ];
      same_cap = refl;
      same_head = refl;
      same_tail = refl;
      same_queue = refl;
    }

-- A packet that is saved where none waits for its connection.
pub waiting-save_uncomplete :
    (slot : Option Queue) (uc : Uncomplete) (x : ℕ)
    → waiting (save_uncomplete slot uc) x
      ≡ (if uc.id == x then some uc else waiting (get_queue slot) x)
unfolding save_uncomplete waiting
waiting-save_uncomplete slot uc x =
    let q = get_queue slot in
    let h = hash_fd uc.id in
    elim (ℕ_discrete h (hash_fd x)) [
      | yes e ↦ rw (sym e, at_self q.hash h (uc ∷ q.hash h)) (unfold find_in in refl)
      | no ne ↦
          rw (at_ne q.hash h (uc ∷ q.hash h) (hash_fd x) ne)
            (ground (arith, λ (e : uc.id ≡ x). ne (ap hash_fd e)))
    ]

pub save_uncomplete-IsTable :
    (slot : Option Queue) (uc : Uncomplete)
    → IsTable (get_queue slot)
    → waiting (get_queue slot) uc.id ≡ none
    → IsTable (save_uncomplete slot uc)
unfolding save_uncomplete waiting
save_uncomplete-IsTable slot uc o e =
    Once-at (get_queue slot).hash (hash_fd uc.id) _ o (e, o (hash_fd uc.id))

pub waiting-id : (q : Queue) (fd : ℕ) (uc : Uncomplete) → waiting q fd ≡ some uc → uc.id ≡ fd
unfolding waiting
waiting-id q fd uc e = find_in-id (q.hash (hash_fd fd)) fd uc e

pub waiting-hash : (q q' : Queue) (fd : ℕ) → q'.hash ≡ q.hash → waiting q' fd ≡ waiting q fd
unfolding waiting
waiting-hash q q' fd e = rw e refl
