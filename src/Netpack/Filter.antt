-- ===== src/Netpack/Filter.antt =====
-- One socket message: what `filter_data` delivers of the packets of its connection, and what it
-- keeps.
use skynet_gameserver.Prelude.{
  ℕ, ◌-◌, ◌/◌, ◌%◌, ◌^◌, ◌<◌, ◌≤◌, ◌≡◌, ◌≢◌, refl, ap, ap₂, sym, subst, ◌∙◌, inl, inr, Bool-cases,
  Option, none, some, List, [], ◌∷◌, ◌++◌, ltb, ◌==◌, length, take, drop, arith, length-append,
  length-take, length-drop, take-append-drop,
}
use skynet_gameserver.Prelude.Split.{append_assoc, append_nil}
use skynet_gameserver.Netpack.{
  Uncomplete, Queue, nothing, packet, more, Filtered, replies, find_uncomplete, get_queue,
  push_data, push_more, fill, begin_packet, read_rest, filter_found, filter_data, read_size,
}
use skynet_gameserver.Netpack.Table.{waiting, find_uncomplete-Found, waiting-id}
use skynet_gameserver.Netpack.Queues.{queued, queued-Found}
use skynet_gameserver.Netpack.Packing.{
  wire, IsBytes, IsBytes-drop, partial, IsPartial, read_size-lt, read_size-bytes, wire_one,
}
use skynet_gameserver.Netpack.Cuts.{
  IsValid, IsClear, Cut, Cuts, cuts, save-Cut, save_header, save_sized, push-Cut, push_data-IsClear,
  push_more-Cuts, move-Cut, find_uncomplete-IsClear, empty_of_length,
}

-- What `filter_data` does where `stream` is what it had of the connection and what came: it keeps all
-- of it, or it delivers the one packet that it is, or it queues several packets and keeps the rest.
pub data Delivers (q : Queue) (fd : ℕ) (stream : List ℕ) : Filtered → Type 0 where
  keeps : (q' : Queue) → Cut q fd stream [] q' → Delivers q fd stream (some (nothing, some q'))
  one :
      (p : List ℕ) (slot : Option Queue)
      → IsClear (get_queue slot) fd
      → stream ≡ wire (p ∷ [])
      → length p < 2 ^ 16
      → queued (get_queue slot) ≡ queued q
      → ((x : ℕ) → fd ≢ x → waiting (get_queue slot) x ≡ waiting q x)
      → Delivers q fd stream (some (packet fd p, slot))
  many :
      (ps : List (List ℕ)) (q' : Queue)
      → Cut q fd stream ps q'
      → Delivers q fd stream (some (more, some q'))

read_size-split : (n : ℕ) → read_size (n / 2 ^ 8) (n % 2 ^ 8) ≡ n
unfolding read_size
read_size-split n = omega arith

-- A first packet that is whole, with more bytes behind it.
more-Delivers :
    (slot : Option Queue) (fd a b : ℕ) (p rest : List ℕ) (r : Option Queue)
    → IsClear (get_queue slot) fd
    → b < 2 ^ 8
    → length p ≡ read_size a b
    → read_size a b < 2 ^ 16
    → Cuts (push_data slot fd p) fd rest r
    → Delivers (get_queue slot) fd (a ∷ b ∷ (p ++ rest)) (replies more r)
more-Delivers slot fd a b p rest _ c h e lt (cuts ps q' k) =
    many (p ∷ ps) q' (push-Cut slot fd a b p rest ps q' c.valid.ring h e lt k)

one-Delivers :
    (slot : Option Queue) (fd a b : ℕ) (p : List ℕ)
    → IsClear (get_queue slot) fd
    → b < 2 ^ 8
    → length p ≡ read_size a b
    → read_size a b < 2 ^ 16
    → Delivers (get_queue slot) fd (a ∷ b ∷ p) (some (packet fd p, slot))
one-Delivers slot fd a b p c h e lt =
    one p slot c
      (ap (λ xs. a ∷ b ∷ xs) (sym (append_nil p))
        ∙ sym (wire_one a b p [] h e)
        ∙ append_nil (wire (p ∷ [])))
      (omega (arith, e)) refl (λ x ne. refl)

pushed-Cuts :
    (slot : Option Queue) (fd : ℕ) (p rest : List ℕ)
    → IsClear (get_queue slot) fd
    → IsBytes rest
    → 0 < length rest
    → Cuts
        (push_data slot fd p)
        fd
        rest
        (push_more (length rest) (some (push_data slot fd p)) fd rest)
unfolding get_queue
pushed-Cuts slot fd p rest c i h =
    push_more-Cuts (length rest) (some (push_data slot fd p)) fd rest
      (push_data-IsClear slot fd p c) i h (omega arith)

-- A packet that waits gets its rest, or a part of it.
fill-Delivers :
    (slot : Option Queue) (uc : Uncomplete) (read bytes : List ℕ)
    → IsClear (get_queue slot) uc.id
    → IsBytes bytes
    → length read ≤ uc.size
    → uc.size < 2 ^ 16
    → Delivers
        (get_queue slot)
        uc.id
        (uc.size / 2 ^ 8 ∷ uc.size % 2 ^ 8 ∷ (read ++ bytes))
        (fill slot uc.id uc read bytes)
unfolding fill
fill-Delivers slot uc read bytes c i le lt =
    let need = uc.size - length read in
    let whole = read ++ take need bytes in
    let rest = drop need bytes in
    let s = read_size-split uc.size in
    let joined : whole ++ rest ≡ read ++ bytes =
      append_assoc read (take need bytes) rest
      ∙ ap (λ xs. read ++ xs) (take-append-drop need bytes) in
    let sized : need ≤ length bytes → length whole ≡ uc.size =
      λ h. omega (arith, h, length-append read (take need bytes), length-take need bytes) in
    elim (Bool-cases (ltb (length bytes) need)) [
      | inl e ↦ rw e (
          keeps _ (
            save-Cut slot (record uc { read = some (read ++ bytes) }) c
              (ground (arith, length-append read bytes), lt)))
      | inr e ↦
          let enough : need ≤ length bytes = ground arith in
          let n = sized enough in
          elim (Bool-cases (length rest == 0)) [
            | inl e' ↦
                let z : whole ≡ read ++ bytes =
                  sym (append_nil whole)
                  ∙ ap (λ xs. whole ++ xs) (sym (empty_of_length rest (ground arith)))
                  ∙ joined in
                rw (e, e', sym z)
                  (one-Delivers slot uc.id _ _ whole c (omega arith) (n ∙ sym s) (omega (arith, s)))
            | inr e' ↦
                rw (e, e', sym joined)
                  (more-Delivers slot uc.id _ _ whole rest _ c (omega arith) (n ∙ sym s)
                    (omega (arith, s))
                    (pushed-Cuts slot uc.id whole rest c (IsBytes-drop need bytes i)
                      (ground arith)))
          ]
    ]

begin_packet-Delivers :
    (slot : Option Queue) (fd : ℕ) (bytes : List ℕ)
    → IsClear (get_queue slot) fd
    → IsBytes bytes
    → 0 < length bytes
    → Delivers (get_queue slot) fd bytes (begin_packet slot fd bytes)
unfolding begin_packet
begin_packet-Delivers slot fd [] c i h = absurd (omega arith)
begin_packet-Delivers slot fd (a ∷ []) c i h = keeps _ (save_header slot fd a c i.0)
begin_packet-Delivers slot fd (a ∷ b ∷ bytes) c i h =
    let n = read_size a b in
    let lt = read_size-lt a b i.0 i.1.0 in
    elim (Bool-cases (ltb (length bytes) n)) [
      | inl e ↦ rw e (keeps _ (save_sized slot fd a b bytes c i.0 i.1.0 (ground arith)))
      | inr e ↦ elim (Bool-cases (length bytes == n)) [
        | inl e' ↦ rw (e, e') (one-Delivers slot fd a b bytes c i.1.0 (ground arith) lt)
        | inr e' ↦
            rw (e, e')
              (subst
                (λ xs. Delivers (get_queue slot) fd (a ∷ b ∷ xs) (
                  replies more (
                    push_more (length (drop n bytes)) (some (push_data slot fd (take n bytes))) fd
                      (drop n bytes))))
                (take-append-drop n bytes)
                (more-Delivers slot fd a b (take n bytes) (drop n bytes) _ c i.1.0
                  (ground (arith, length-take n bytes)) lt
                  (pushed-Cuts slot fd (take n bytes) (drop n bytes) c (IsBytes-drop n bytes i.1.1)
                    (ground (arith, length-drop n bytes)))))
      ]
    ]

read_rest-Delivers :
    (slot : Option Queue) (uc : Uncomplete) (bytes : List ℕ)
    → IsClear (get_queue slot) uc.id
    → IsBytes bytes
    → 0 < length bytes
    → uc.header < 2 ^ 8
    → Delivers (get_queue slot) uc.id (uc.header ∷ bytes) (read_rest slot uc.id uc bytes)
unfolding read_rest
read_rest-Delivers slot uc [] c i h h' = absurd (omega arith)
read_rest-Delivers slot uc (b ∷ bytes) c i h h' =
    let (ea, eb) = read_size-bytes uc.header b i.0 in
    subst
      (λ xs.
        Delivers (get_queue slot) uc.id xs
          (fill slot uc.id (record uc { size = read_size uc.header b; read = some [] }) [] bytes))
      (ap₂ (λ x y. x ∷ y ∷ bytes) ea eb)
      (fill-Delivers slot (record uc { size = read_size uc.header b; read = some [] }) [] bytes c
        i.1 (omega arith) (read_size-lt uc.header b h' i.0))

filter_read-Delivers :
    (read : Option (List ℕ)) (slot : Option Queue) (uc : Uncomplete) (bytes : List ℕ)
    → uc.read ≡ read
    → IsClear (get_queue slot) uc.id
    → IsPartial (some uc)
    → IsBytes bytes
    → 0 < length bytes
    → Delivers
        (get_queue slot)
        uc.id
        (partial (some uc) ++ bytes)
        (filter_found (some uc) slot uc.id bytes)
filter_read-Delivers none slot uc bytes e c w i h =
    let w' = rw e at w in rw e (read_rest-Delivers slot uc bytes c i h w')
filter_read-Delivers (some read) slot uc bytes e c w i h =
    let w' = rw e at w in rw e (fill-Delivers slot uc read bytes c i (omega (arith, w'.0)) w'.1)

filter_found-Delivers :
    (found : Option Uncomplete) (slot : Option Queue) (fd : ℕ) (bytes : List ℕ)
    → ((uc : Uncomplete) → found ≡ some uc → uc.id ≡ fd)
    → IsClear (get_queue slot) fd
    → IsPartial found
    → IsBytes bytes
    → 0 < length bytes
    → Delivers (get_queue slot) fd (partial found ++ bytes) (filter_found found slot fd bytes)
filter_found-Delivers none slot fd bytes f c w i h = begin_packet-Delivers slot fd bytes c i h
filter_found-Delivers (some uc) slot fd bytes f c w i h =
    let e = f uc refl in
    subst
      (λ d.
        Delivers (get_queue slot) d (partial (some uc) ++ bytes)
          (filter_found (some uc) slot d bytes))
      e (filter_read-Delivers uc.read slot uc bytes refl (rw e c) w i h)

-- Where the queue is as before but for what waits for `fd`.
move-Delivers :
    (q q₁ : Queue) (fd : ℕ) (stream : List ℕ) (r : Filtered)
    → queued q₁ ≡ queued q
    → ((x : ℕ) → fd ≢ x → waiting q₁ x ≡ waiting q x)
    → Delivers q₁ fd stream r
    → Delivers q fd stream r
move-Delivers q q₁ fd stream _ e o (keeps q' c) = keeps q' (move-Cut q q₁ fd stream [] q' e o c)
move-Delivers q q₁ fd stream _ e o (one p slot c s lt e' o') =
    one p slot c s lt (e' ∙ e) (λ x ne. o' x ne ∙ o x ne)
move-Delivers q q₁ fd stream _ e o (many ps q' c) = many ps q' (move-Cut q q₁ fd stream ps q' e o c)

-- On a valid queue a socket message of at least one byte is cut without a fault. With what was kept
-- of its connection it is the delivered packets, in order, each with its size before it, and what is
-- kept now; the other connections are left alone, and the queue only grows by the packets.
pub filter_data-Delivers :
    (slot : Option Queue) (fd : ℕ) (bytes : List ℕ)
    → IsValid (get_queue slot)
    → IsBytes bytes
    → 0 < length bytes
    → let q = get_queue slot in
      Delivers q fd (partial (waiting q fd) ++ bytes) (filter_data slot fd bytes)
unfolding filter_data
filter_data-Delivers slot fd bytes v i h =
    let q = get_queue slot in
    let f = find_uncomplete-Found slot fd v.table in
    let slot' = (find_uncomplete slot fd).1 in
    let q₁ = get_queue slot' in
    move-Delivers q q₁ fd (partial (waiting q fd) ++ bytes) _ (queued-Found slot fd v.table)
      (λ x ne. ground (arith, f.others x))
      (subst
        (λ u.
          Delivers q₁ fd (partial u ++ bytes)
            (filter_found (find_uncomplete slot fd).0 slot' fd bytes))
        f.found
        (filter_found-Delivers (find_uncomplete slot fd).0 slot' fd bytes
          (λ uc e. waiting-id q fd uc (sym f.found ∙ e)) (find_uncomplete-IsClear slot fd v)
          (rw f.found (v.parts fd)) i h))
