-- ===== src/Mdns/Windows/Asked.antt =====
-- Which questions the mDNS responder answers.
use espconnect.Common.{
  ◌≡◌, ◌↔◌, ◌⊎◌, refl, ap, true, [], ◌∷◌, ◌++◌, length, Bytes, c_string, ◌==◌, ◌||◌, Bool-cases,
  inl, inr, arith,
}
use espconnect.Mdns.Windows.{
  Mdns, Question, announcement, is_asked, query_callback, same_front, dotted_type, type_ptr,
  type_any,
}

-- A text that begins with `front`.
pub record Begins (front text : Bytes) : Type 0 where
  pub rest : Bytes
  pub parts : front ++ rest ≡ text

same_front-Begins :
    (front text : Bytes) → same_front (length front) front text ≡ true → Begins front text
unfolding same_front
same_front-Begins [] text e = record { rest = text; parts = refl }
same_front-Begins (x ∷ xs) [] e = absurd (cc)
same_front-Begins (x ∷ xs) (y ∷ ys) e =
    let same : x ≡ y = ground (arith, e) in
    let b = same_front-Begins xs ys (ground (arith, e)) in
    record { rest = b.rest; parts = rw same (ap (λ t. y ∷ t) b.parts) }

Begins-same_front : (front rest : Bytes) → same_front (length front) front (front ++ rest) ≡ true
unfolding same_front
Begins-same_front [] rest = refl
Begins-same_front (x ∷ xs) rest = ground (arith, Begins-same_front xs rest)

abbrev Asks : Mdns → Question → Type 0
Asks m q = ((q.rtype ≡ type_ptr) ⊎ (q.rtype ≡ type_any)) × Begins q.name (dotted_type m)

is_asked-Asks :
    (m : Mdns) (q : Question) → c_string q.name ≡ q.name → is_asked m q ≡ true → Asks m q
unfolding is_asked
is_asked-Asks m q no_nul e =
    let front : same_front (length q.name) (c_string q.name) (dotted_type m) ≡ true =
      ground (arith, e) in
    let type_fits : ((q.rtype == type_ptr) || (q.rtype == type_any)) ≡ true = ground (arith, e) in
    (by_type type_fits, same_front-Begins q.name (dotted_type m) (rw no_nul at front))
  where
    by_type :
        ((q.rtype == type_ptr) || (q.rtype == type_any)) ≡ true
        → (q.rtype ≡ type_ptr) ⊎ (q.rtype ≡ type_any)
    by_type h = elim (Bool-cases (q.rtype == type_ptr)) [
      | inl t ↦ inl (ground (arith, t))
      | inr t ↦ inr (ground (arith, t, h))
    ]

Asks-is_asked :
    (m : Mdns) (q : Question) → c_string q.name ≡ q.name → Asks m q → is_asked m q ≡ true
unfolding is_asked
Asks-is_asked m q no_nul (t, b) =
    let front : same_front (length q.name) (c_string q.name) (dotted_type m) ≡ true =
      rw (no_nul, ← b.parts) (Begins-same_front q.name b.rest) in
    let type_fits : ((q.rtype == type_ptr) || (q.rtype == type_any)) ≡ true = ground (arith, t) in
    rw (front, type_fits) refl

-- For a question whose name has no NUL, mdns_query_callback sends the announcement exactly when the
-- type is PTR or ANY and the name is a front part, be it empty, of the type of the service with a
-- dot.
pub query_callback-asks_iff :
    (m : Mdns) (q : Question)
    → c_string q.name ≡ q.name
    → (query_callback m q ≡ announcement m ∷ [])
      ↔ (((q.rtype ≡ type_ptr) ⊎ (q.rtype ≡ type_any)) × Begins q.name (dotted_type m))
unfolding query_callback
query_callback-asks_iff m q no_nul = (
  λ e. elim (Bool-cases (is_asked m q)) [
    | inl h ↦ is_asked-Asks m q no_nul h
    | inr h ↦ absurd (cc (rw h at e))
  ],
  λ a. rw (Asks-is_asked m q no_nul a) refl,
)
