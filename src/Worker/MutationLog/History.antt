-- ===== src/Worker/MutationLog/History.antt =====
-- The mutation log against the whole history of mutations: what it covers, and what it replays.
use mathlib.Core.Path.{subst}
use view_server.Prelude.{
  ℕ, suc, ◌+◌, ◌-◌, ◌<◌, ◌≤◌, ◌≡◌, refl, sym, ap, ◌∙◌, some, List, [], ◌∷◌, ◌++◌, Bool, true, false,
  length, get_elem?, get_last?, drop, arith, dec_lt, leb, length-append, length-drop,
  drop-append_left, drop-drop, drop_past, get_elem?-append_left, get_elem?-append_right,
  get_elem?-drop, get_elem?_within, filter_by, filter_by-append, filter_by-none, filter_by-all,
  get_elem?_last, append_assoc, append-nil, length_of_get_elem?,
}
use view_server.Worker.MutationLog.{
  MutationLogEntry, MutationLog, append, ends_cover, covers_exclusive, in_range, entries_exclusive,
}
use view_server.Worker.MutationLog.Contents.{
  Holds, keep_last, append-Holds, entries_exclusive-Holds, covers_exclusive-Holds,
}

abbrev pub Entries : Type 0
Entries = List MutationLogEntry

-- The entries carry the versions `n + 1`, `n + 2` and so on.
abbrev pub Numbered : ℕ → Entries → Type 0
Numbered n xs = (i : ℕ) (e : MutationLogEntry) → get_elem? xs i ≡ some e → e.version ≡ n + suc i

pub Numbered-append :
    (n : ℕ) (xs ys : Entries) → Numbered n xs → Numbered (n + length xs) ys → Numbered n (xs ++ ys)
Numbered-append n xs ys hx hy i e h = elim (dec_lt i (length xs)) [
  | yes p ↦ hx i e (sym (get_elem?-append_left xs ys i p) ∙ h)
  | no p ↦
      let v = hy (i - length xs) e (sym (get_elem?-append_right xs ys i (omega arith)) ∙ h) in
      omega arith
]

-- Appending in turn.
unfoldable pub append_all : MutationLog → Entries → MutationLog
append_all log [] = log
append_all log (e ∷ es) = append_all (append log e) es

pub capacity-append :
    (log : MutationLog) (e : MutationLogEntry) → (append log e).capacity ≡ log.capacity
unfolding append
capacity-append log e = ground arith

pub capacity-append_all :
    (es : Entries) (log : MutationLog) → (append_all log es).capacity ≡ log.capacity
unfolding append_all
capacity-append_all [] log = refl
capacity-append_all (e ∷ es) log = capacity-append_all es (append log e) ∙ capacity-append log e

keep_last-append :
    (n : ℕ) (h : Entries) (e : MutationLogEntry)
    → keep_last n (keep_last n h ++ e ∷ []) ≡ keep_last n (h ++ e ∷ [])
keep_last-append n h e =
    let d = length h - n in
    ap (keep_last n) (sym (drop-append_left d h (e ∷ []) (omega arith)))
    ∙ drop-drop _ d (h ++ e ∷ [])
    ∙ ap (λ k. drop k (h ++ e ∷ []))
        (omega (arith, length-append h (e ∷ []), length-drop d (h ++ e ∷ [])))

-- A ring that holds the end of a history goes on holding the end of the history.
pub append_all-Holds :
    (cap : ℕ) (es h : Entries) (log : MutationLog)
    → log.capacity ≡ cap
    → Holds log (keep_last cap h)
    → Holds (append_all log es) (keep_last cap (h ++ es))
unfolding append_all
append_all-Holds cap [] h log c x = rw append-nil x
append_all-Holds cap (e ∷ es) h log c x =
    let next : Holds (append log e) (keep_last cap (h ++ e ∷ [])) =
      subst (Holds (append log e)) (keep_last-append cap h e) (
        subst (λ n. Holds (append log e) (keep_last n (keep_last cap h ++ e ∷ []))) c
          (append-Holds log (keep_last cap h) e x)) in
    rw append_assoc at
      (append_all-Holds cap es (h ++ e ∷ []) (append log e) (capacity-append log e ∙ c) next)

-- A ring of `cap` places that holds the end of `h ++ es`, where `h` are the entries of the versions up
-- to `from_version`, and `es` are the later ones.
module _ (log : MutationLog) (cap : ℕ) (h es : Entries) (held : Holds log (keep_last cap (h ++ es)))
    (numbered : Numbered 0 (h ++ es)) where
  from_version : ℕ
  from_version = length h

  to_version : ℕ
  to_version = length h + length es

  -- how many of the entries the ring has lost
  lost : ℕ
  lost = length (h ++ es) - cap

  version_at :
      (i : ℕ) (e : MutationLogEntry)
      → get_elem? (keep_last cap (h ++ es)) i ≡ some e
      → e.version ≡ suc (lost + i)
  unfolding lost
  version_at i e found =
      let v = numbered (lost + i) e (sym (get_elem?-drop lost (h ++ es) i) ∙ found) in omega arith

  items_length : length (keep_last cap (h ++ es)) ≡ length h + length es - lost
  unfolding lost
  items_length = omega (arith, length-drop lost (h ++ es), length-append h es)

  ends_lem :
      (first last : MutationLogEntry)
      → first.version ≡ suc lost
      → last.version ≡ length h + length es
      → 0 < length es
      → ends_cover (some first) (some last) (length h) (length h + length es) ≡ leb (length es) cap
  unfolding ends_cover lost
  ends_lem first last p q pos = ground (arith, length-append h es)

  ends_full :
      0 < length es
      → 0 < cap
      → ends_cover
          (get_elem? (keep_last cap (h ++ es)) 0)
          (get_last? (keep_last cap (h ++ es)))
          (length h)
          (length h + length es)
        ≡ leb (length es) cap
  ends_full pos room =
      let long = short_of lost_lem in
      let (first, p) = get_elem?_within (keep_last cap (h ++ es)) 0 long in
      let (last, q) =
        get_elem?_within (keep_last cap (h ++ es)) (length (keep_last cap (h ++ es)) - 1)
          (omega arith) in
      let v = version_at 0 first p in
      let w = version_at (length (keep_last cap (h ++ es)) - 1) last q in
      rw (p, sym (get_elem?_last (keep_last cap (h ++ es))) ∙ q)
        (ends_lem first last (omega arith) (omega (arith, items_length, lost_lem)) pos)
    where
      lost_lem : lost < length h + length es
      lost_lem = unfold lost in omega (arith, length-append h es)

      short_of : lost < length h + length es → 0 < length (keep_last cap (h ++ es))
      short_of p = omega (arith, items_length)

  ends_none :
      cap ≡ 0
      → ends_cover
          (get_elem? (keep_last cap (h ++ es)) 0)
          (get_last? (keep_last cap (h ++ es)))
          (length h)
          (length h + length es)
        ≡ false
  unfolding ends_cover
  ends_none z = rw (drop_past (length (h ++ es) - cap) (h ++ es) (omega arith))

  -- `coversExclusive` says yes exactly if the later entries all fit into the ring.
  pub covers_exclusive_lem :
      covers_exclusive log (length h) (length h + length es) ≡ leb (length es) cap
  covers_exclusive_lem =
      covers_exclusive-Holds log (keep_last cap (h ++ es)) held (length h) (length h + length es)
      ∙ (elim (dec_lt 0 (length es)) [
        | no p ↦ ground arith
        | yes p ↦
            let later : leb (length h + length es) (length h) ≡ false = ground arith in
            rw later (elim (dec_lt 0 cap) [
              | yes q ↦ ends_full p q
              | no q ↦ ends_none (omega arith) ∙ ground arith
            ])
      ])

  -- If it says yes, `entriesExclusive` returns the later entries, all of them and in order.
  pub entries_exclusive_lem :
      length es ≤ cap → entries_exclusive log (length h) (length h + length es) ≡ es
  unfolding lost
  entries_exclusive_lem fits =
      entries_exclusive-Holds log (keep_last cap (h ++ es)) held (length h) (length h + length es)
      ∙ ap (filter_by in_later) split
      ∙ filter_by-append in_later (drop lost h) es
      ∙ ap (λ xs. xs ++ filter_by in_later es) (filter_by-none in_later (drop lost h) old)
      ∙ filter_by-all in_later es new
    where
      in_later : MutationLogEntry → Bool
      in_later = in_range (length h) (length h + length es)

      within : lost ≤ length h
      within = omega (arith, length-append h es)

      split : keep_last cap (h ++ es) ≡ drop lost h ++ es
      split = drop-append_left lost h es within

      old : (i : ℕ) (e : MutationLogEntry) → get_elem? (drop lost h) i ≡ some e → in_later e ≡ false
      old i e found =
          let short = length_of_get_elem? (drop lost h) i found in
          let at_i : get_elem? (drop lost h ++ es) i ≡ some e =
            get_elem?-append_left (drop lost h) es i short ∙ found in
          let v = version_at i e (ap (λ xs. get_elem? xs i) split ∙ at_i) in
          ground (arith, length-drop lost h)

      new : (i : ℕ) (e : MutationLogEntry) → get_elem? es i ≡ some e → in_later e ≡ true
      new i e found =
          let short = length_of_get_elem? es i found in
          let d : length h + i - length h ≡ i = omega arith in
          let at_i : get_elem? (h ++ es) (length h + i) ≡ some e =
            get_elem?-append_right h es (length h + i) (omega arith)
            ∙ ap (get_elem? es) d
            ∙ found in
          let v = numbered (length h + i) e at_i in ground arith
