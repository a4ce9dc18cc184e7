-- ===== src/Receiver/Options/Modes.antt =====
-- The mode of the receiver, and whether its exporters take part (chronicle-receiver/
-- receiver_plugin.cpp: plugin_initialize, is_noexport_opt).
use Prim.Native.String.{String}
use text.Mathlib.Text.{◌==◌ as str_eq}
use fio_chronicle.Prelude.{
  ◌≡◌, refl, ap, ◌∙◌, sym, subst, Bool, true, false, not, ◌&&◌, ◌||◌, none, some, ltb, arith,
}
use fio_chronicle.Prelude.Action.{ok}
use fio_chronicle.Store.Chainbase.{Chainbase}
use fio_chronicle.Receiver.State.{Config}
use fio_chronicle.Receiver.Options.{Options, Names, Plugin, plugin_initialize, is_noexport_opt}
use fio_chronicle.Receiver.Options.Accepted.{
  Parsed, IsAccepted, is_known, flags_of, is_noexport-not_interactive, configured,
  plugin_initialize-IsAccepted,
}

-- Interactive mode only serves irreversible blocks, exports them and has no start block.
abbrev pub clashes : Config → Bool
clashes c =
    c.interactive_mode && (c.noexport_mode || not c.irreversible_only || ltb 0 c.start_block_num)

flags_of-noexport :
    (m : String) (c : Config)
    → is_known m ≡ true
    → (flags_of m c).noexport_mode ≡ str_eq m "scan-noexport"
unfolding flags_of
flags_of-noexport m c known = ground arith

flags_of-clashes :
    (m : String) (c : Config)
    → is_known m ≡ true
    → (flags_of m c).interactive_mode
        && ((flags_of m c).noexport_mode || not (flags_of m c).irreversible_only)
      ≡ false
unfolding flags_of
flags_of-clashes m c known = ground (arith, is_noexport-not_interactive m)

some-injective : (a b : String) → some a ≡ some b → a ≡ b
some-injective a b h = cc

either_clash :
    (i n r s : Bool) → i && (n || not r) ≡ false → i && s ≡ false → i && (n || not r || s) ≡ false
either_clash i n r s h k = ground arith

flags_of-unknown : (m : String) (c : Config) → is_known m ≡ false → flags_of m c ≡ c
unfolding flags_of
flags_of-unknown m c unknown = ground arith

module _ (names : Names) {D C : Type 0} ⦃cb : Chainbase D⦄ (version : String) where
  -- Without a snapshot option, in one of the known modes, after an initialisation that returns: the
  -- exporters, which ask for the options, find the receiver in noexport mode exactly when it is,
  -- and in interactive mode the receiver exports, reads irreversible blocks only and has no start
  -- block.
  pub plugin_initialize-modes :
      (o : Options) (m : String) (p q : Plugin D C)
      → o.save_snapshot ≡ none
      → o.restore_snapshot ≡ none
      → o.mode ≡ some m
      → is_known m ≡ true
      → plugin_initialize names version o p ≡ (ok tt, q)
      → (is_noexport_opt o ≡ ok q.config.noexport_mode) × (clashes q.config ≡ false)
  unfolding is_noexport_opt
  plugin_initialize-modes o m p q s t e known h =
      let (r, a, k) = (plugin_initialize-IsAccepted names version o p q s t).0 h in
      let c : Config = record p.config { irreversible_only = o.irreversible_only } in
      let em = some-injective r.mode m (sym a.mode ∙ e) in
      let known_r = subst (λ n. is_known n ≡ true) (sym em) known in
      (
        rw (s, t, a.mode)
            (ap ok (sym (ap (λ w. w.config.noexport_mode) k ∙ flags_of-noexport r.mode c known_r))),
        ap (λ w. clashes w.config) k
            ∙ either_clash _ _ _ _ (flags_of-clashes r.mode c known_r) a.start_block,
      )

  -- Without a snapshot option, where all else in the options is accepted, a mode that is none of
  -- the known ones is accepted too, and the two flags of the mode stay as they were.
  pub plugin_initialize-unknown :
      (o : Options) (r : Parsed) (p : Plugin D C)
      → o.save_snapshot ≡ none
      → o.restore_snapshot ≡ none
      → IsAccepted names o r p.config
      → is_known r.mode ≡ false
      → ((plugin_initialize names version o p).0 ≡ ok tt)
        × ((plugin_initialize names version o p).1.config.interactive_mode
            ≡ p.config.interactive_mode)
        × ((plugin_initialize names version o p).1.config.noexport_mode ≡ p.config.noexport_mode)
  plugin_initialize-unknown o r p s t a unknown =
      let h =
        (plugin_initialize-IsAccepted names version o p (configured o r p) s t).1 (r, a, refl) in
      let c : Config = record p.config { irreversible_only = o.irreversible_only } in
      let same = flags_of-unknown r.mode c unknown in
      (
        ap (λ x. x.0) h,
        ap (λ x. x.1.config.interactive_mode) h ∙ ap (λ d. d.interactive_mode) same,
        ap (λ x. x.1.config.noexport_mode) h ∙ ap (λ d. d.noexport_mode) same,
      )
