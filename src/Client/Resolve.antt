-- ===== src/Client/Resolve.antt =====
-- Which terminal a client attaches to.
use sbsh.Base.{
  ◌≡◌, ◌↔◌, refl, true, false, Option, none, some, ◌⊎◌, inl, inr, is_empty, arith, Bool-cases, ◌∙◌,
  ap, sym,
}
use sbsh.Errdefs.{
  Error, sentinel, wrap, err_terminal_not_found_by_id, err_terminal_not_found_by_name,
}
use sbsh.Client.{
  TerminalSpec, AttachedTerminal, new_supervised_terminal, Lookups, with_id, resolved,
  create_attach_terminal,
}

-- The three ways to a terminal, in the order of their precedence.
pub data Resolves (l : Lookups) (s : TerminalSpec) : TerminalSpec → Type 0 where
  by_socket : is_empty s.socket_file ≡ false → Resolves l s (with_id l.random_id s)
  by_id :
      (m : TerminalSpec)
      → is_empty s.socket_file ≡ true
      → is_empty s.id ≡ false
      → l.find_by_id s.id ≡ inr (some m)
      → Resolves l s m
  by_name :
      (m : TerminalSpec)
      → is_empty s.socket_file ≡ true
      → is_empty s.id ≡ true
      → is_empty s.name ≡ false
      → l.find_by_name s.name ≡ inr (some m)
      → Resolves l s m

resolved-inr :
    (f : Error → Error) (r : Error ⊎ Option TerminalSpec) (t : AttachedTerminal)
    → resolved f r ≡ inr t
    → (m : TerminalSpec) × (r ≡ inr (some m)) × (t ≡ new_supervised_terminal m)
resolved-inr f (inl e) t h = cc
resolved-inr f (inr none) t h = cc
resolved-inr f (inr (some m)) t h = (m, refl, cc)

from_Resolves :
    (l : Lookups) (s m : TerminalSpec)
    → Resolves l s m
    → create_attach_terminal l s ≡ inr (new_supervised_terminal m)
unfolding create_attach_terminal
from_Resolves l s m (by_socket e) = ground (arith, e)
from_Resolves l s m (by_id n e i h) = ground (arith, e, i, h)
from_Resolves l s m (by_name n e i k h) = ground (arith, e, i, k, h)

to_Resolves :
    (l : Lookups) (s : TerminalSpec) (t : AttachedTerminal)
    → create_attach_terminal l s ≡ inr t
    → (m : TerminalSpec) × Resolves l s m × (t ≡ new_supervised_terminal m)
unfolding create_attach_terminal
to_Resolves l s t h = elim (Bool-cases (is_empty s.socket_file)) [
  | inr e ↦ (_, by_socket e, ground (arith, h))
  | inl e ↦ elim (Bool-cases (is_empty s.id)) [
    | inr i ↦
        let (m, q, r) =
          resolved-inr (wrap (sentinel err_terminal_not_found_by_id)) (l.find_by_id s.id) t
            (ground (arith, h)) in
        (m, by_id m e i q, r)
    | inl i ↦ elim (Bool-cases (is_empty s.name)) [
      | inr k ↦
          let (m, q, r) =
            resolved-inr (wrap (sentinel err_terminal_not_found_by_name)) (l.find_by_name s.name) t
              (ground (arith, h)) in
          (m, by_name m e i k q, r)
      | inl k ↦ absurd (ground (arith, h))
    ]
  ]
]

-- `createAttachTerminal` succeeds exactly where a socket, an ID or a name leads to a terminal, a
-- socket before an ID before a name, and what it gives is that terminal with its own command.
pub create_attach_terminal-Resolves :
    (l : Lookups) (s : TerminalSpec) (t : AttachedTerminal)
    → (create_attach_terminal l s ≡ inr t)
      ↔ ((m : TerminalSpec) × Resolves l s m × (t ≡ new_supervised_terminal m))
create_attach_terminal-Resolves l s t =
    (to_Resolves l s t, λ (m, r, e). from_Resolves l s m r ∙ ap inr (sym e))
