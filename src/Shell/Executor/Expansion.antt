-- ===== src/Shell/Executor/Expansion.antt =====
-- Aliases expand once, and input may arrive in any pieces.
use s.Common.Chars.{same_text}
use s.Common.{
  ℕ, ◌≡◌, ◌≢◌, refl, sym, ap, ◌∙◌, inl, inr, true, false, not, List, [], ◌∷◌, ◌++◌, Option, none,
  some, if◌then◌else◌, Text, text_key, codes, All, arith, Bool-cases,
}
use s.Common.Maps.{lookup-insert_self}
use s.Net.{NetApi}
use s.Acl.Port.{split_once, split_once-append}
use s.Shell.Parser.{tokenize}
use s.Shell.Files.{VirtualFs}
use s.Shell.Context.{ShellContext, line}
use s.Shell.Commands.Alias
use s.Shell.Commands.Alias.{is_remove, alias_define, alias_set, run_permitted, full_command}
use s.Shell.Commands.Basic.{Build}
use s.Shell.Executor.{
  Extended, Executed, ShellSession, expand, expand_tokens, execute, execute_inner, handle_byte,
  handle_input,
}

same_text-eq : (a b : Text) → same_text a b ≡ true → a ≡ b
same_text-eq a b h = ground (arith, h)

-- A text with an equals sign is no word without one.
not_word :
    (x word : Text) (parts : Text × Text)
    → split_once b'=' x ≡ some parts
    → split_once b'=' word ≡ none
    → same_text x word ≡ false
not_word x word parts e n = elim (Bool-cases (same_text x word)) [
  | inl same ↦
      let eq : x ≡ word = same_text-eq x word same in
      let both : split_once b'=' x ≡ none = rw eq n in absurd cc
  | inr other ↦ other
]

not_remove : (x : Text) (parts : Text × Text) → split_once b'=' x ≡ some parts → is_remove x ≡ false
unfolding split_once
not_remove x parts e =
    rw
      (
        not_word x (codes "remove") parts e refl,
        not_word x (codes "rm") parts e refl,
        not_word x (codes "del") parts e refl,
      )
      refl

module _ {Net : Type 0} where
  alias_define-some :
      (ctx : ShellContext Net) (name command : Text)
      → name ≢ []
      → command ≢ []
      → alias_define (some (name, command)) [] ctx ≡ alias_set name command ctx
  unfolding alias_define full_command
  alias_define-some ctx [] command n c = absurd (n refl)
  alias_define-some ctx (x ∷ xs) [] n c = absurd (c refl)
  alias_define-some ctx (x ∷ xs) (y ∷ ys) n c = refl

  run_permitted-alias_set :
      (ctx : ShellContext Net) (name command : Text)
      → name ≢ []
      → command ≢ []
      → All (λ c. c ≢ b'=') name
      → run_permitted ((name ++ b'=' ∷ command) ∷ []) ctx ≡ alias_set name command ctx
  unfolding run_permitted
  run_permitted-alias_set ctx name command n c h =
      let parts : split_once b'=' (name ++ b'=' ∷ command) ≡ some (name, command) =
        split_once-append b'=' name command h in
      rw (not_remove (name ++ b'=' ∷ command) (name, command) parts, parts)
        (alias_define-some ctx name command n c)

  -- An argument with an equals sign sets the alias in front of it.
  run-alias_set :
      (ctx : ShellContext Net) (name command : Text)
      → ctx.permissions.alias_command ≡ true
      → name ≢ []
      → command ≢ []
      → All (λ c. c ≢ b'=') name
      → Alias.run ((name ++ b'=' ∷ command) ∷ []) ctx ≡ alias_set name command ctx
  unfolding Alias.run
  run-alias_set ctx name command p n c h =
      ap
        (λ b.
          if not b
          then (ctx, line (codes "Permission denied: alias"))
          else run_permitted ((name ++ b'=' ∷ command) ∷ []) ctx)
        p
      ∙ run_permitted-alias_set ctx name command n c h

module _ (api : NetApi) (ext : Extended api.Net) (build : Build) where
  open api use {Net}

  -- When the alias command is permitted and defines a name, which is not empty and holds no equals
  -- sign, for a text that is not empty and has at least one token, then the name runs as the first
  -- token of that text, with the other tokens and the arguments of the call behind it; the first
  -- token is not looked up among the aliases again.
  pub execute-alias :
      (ctx : ShellContext Net) (fs : VirtualFs) (username hostname name command cmd : Text)
      (tokens args : List Text)
      → ctx.permissions.alias_command ≡ true
      → name ≢ []
      → command ≢ []
      → All (λ c. c ≢ b'=') name
      → tokenize command ≡ cmd ∷ tokens
      → execute api ext build name args fs username hostname
          (some (Alias.run ((name ++ b'=' ∷ command) ∷ []) ctx).0)
        ≡ execute_inner api ext build cmd
            (tokens ++ args)
            fs
            username
            hostname
            (some (Alias.run ((name ++ b'=' ∷ command) ∷ []) ctx).0)
  unfolding execute alias_set
  execute-alias ctx fs username hostname name command cmd tokens args p n c h e =
      let after : ShellContext Net = (alias_set name command ctx).0 in
      let run : Option Text → Executed Net = λ o.
        let (found, arguments) = expand api ext build o name args in
        execute_inner api ext build found arguments fs username hostname (some after) in
      rw (run-alias_set ctx name command p n c h) (
        ap run (lookup-insert_self name command ctx.aliases)
        ∙ ap
            (λ ts.
              let (found, arguments) = expand_tokens api ext build ts name args in
              execute_inner api ext build found arguments fs username hostname (some after))
            e)

  handle_input-closed :
      (s : ShellSession api ext build) (bs : List ℕ)
      → s.closed ≡ true
      → handle_input api ext build s bs ≡ (s, [])
  unfolding handle_input
  handle_input-closed s [] h = refl
  handle_input-closed s (b ∷ bs) h = rw h refl

  append_assoc : (xs ys zs : List ℕ) → (xs ++ ys) ++ zs ≡ xs ++ (ys ++ zs)
  append_assoc [] ys zs = refl
  append_assoc (x ∷ xs) ys zs = ap (λ l. x ∷ l) (append_assoc xs ys zs)

  Sent : Type 0
  Sent = ShellSession api ext build × List ℕ

  handle_input_open :
      (s : ShellSession api ext build) (b : ℕ) (bs : List ℕ)
      → s.closed ≡ false
      → handle_input api ext build s (b ∷ bs) ≡ (
        (handle_input api ext build (handle_byte api ext build s b).0 bs).0,
        (handle_byte api ext build s b).1
            ++ (handle_input api ext build (handle_byte api ext build s b).0 bs).1,
      )
  unfolding handle_input
  handle_input_open s b bs h =
      ap
        (λ c. if c then (s, []) else (
          (handle_input api ext build (handle_byte api ext build s b).0 bs).0,
          (handle_byte api ext build s b).1
              ++ (handle_input api ext build (handle_byte api ext build s b).0 bs).1,
        ))
        h

  -- Input that arrives in two pieces leads to the same session and sends the same bytes as in one
  -- piece.
  pub handle_input-append :
      (s : ShellSession api ext build) (bs cs : List ℕ)
      → handle_input api ext build s (bs ++ cs) ≡ (
        (handle_input api ext build (handle_input api ext build s bs).0 cs).0,
        (handle_input api ext build s bs).1
            ++ (handle_input api ext build (handle_input api ext build s bs).0 cs).1,
      )
  unfolding handle_input Sent
  handle_input-append s [] cs = refl
  handle_input-append s (b ∷ bs) cs =
      let rest : Sent → Sent = λ r.
        ((handle_input api ext build r.0 cs).0, r.1 ++ (handle_input api ext build r.0 cs).1) in
      elim (Bool-cases s.closed) [
        | inl shut ↦
            handle_input-closed s (b ∷ bs ++ cs) shut
            ∙ sym (ap rest (handle_input-closed s (b ∷ bs) shut) ∙ handle_input-closed s cs shut)
        | inr running ↦
            let after : ShellSession api ext build = (handle_byte api ext build s b).0 in
            let sent : List ℕ = (handle_byte api ext build s b).1 in
            let later : Sent = handle_input api ext build after bs in
            handle_input_open s b (bs ++ cs) running
            ∙ ap (λ r. (r.0, sent ++ r.1)) (handle_input-append after bs cs)
            ∙ ap (λ out. ((handle_input api ext build later.0 cs).0, out))
                (sym (append_assoc sent later.1 (handle_input api ext build later.0 cs).1))
            ∙ sym (ap rest (handle_input_open s b bs running))
      ]
