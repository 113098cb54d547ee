-- ===== src/CodeEditor/Controls.antt =====
-- What the controls of the code editor can send.
use campus_compile.Base.{Bool, true, false, String, ◌≡◌, ◌⊎◌, inl, inr, refl, sym, arith}
use campus_compile.View.{shown_if}
use campus_compile.View.Offers.{Offers, Offers-append, Offers-shown_if}
use campus_compile.CodeEditor.{
  CodeEditor, Msg, run, submit, cancel, confirm, view, reset_modal, controls,
}

modal-Offers : (m : Msg) → Offers reset_modal m → (m ≡ cancel) ⊎ (m ≡ confirm)
unfolding reset_modal Offers
modal-Offers m (inl (d, e)) = inl (sym e)
modal-Offers m (inr (inl (d, e))) = inr (sym e)
modal-Offers m (inr (inr x)) = elim x [ ]

-- While something is processed every control of the toolbar is disabled, and the editor too.
busy_controls :
    (language : String) (is_contest : Bool) (e : CodeEditor) (m : Msg)
    → Offers (controls language is_contest true e) m
    → ⊥
unfolding controls Offers
busy_controls language true e m h = ground arith
busy_controls language false e m h = ground arith

-- A run and a submission are offered only when nothing is being processed.
pub idle_controls :
    (language : String) (is_contest is_processing : Bool) (e : CodeEditor) (m : Msg)
    → Offers (view language is_contest is_processing e) m
    → (m ≡ run) ⊎ (m ≡ submit)
    → is_processing ≡ false
unfolding view
idle_controls language is_contest false e m h r = refl
idle_controls language is_contest true e m h r =
    elim (Offers-append (shown_if e.show_reset_modal reset_modal)
      (controls language is_contest true e) m h) [
        | inl o ↦
            let (_, o') = Offers-shown_if e.show_reset_modal reset_modal m o in
            let k = modal-Offers m o' in ground arith
        | inr o ↦ elim (busy_controls language is_contest e m o) [ ]
      ]
