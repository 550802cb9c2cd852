-- ===== src/Commands/Guarded.antt =====
-- What the keys do without the permission to write.
use volum.Base.{
  ltb, ◌==◌, is_some, if_cases, length, Text, codes, ◌≡◌, refl, Bool, true, false, ◌&&◌, not,
  Option, none, some, List, [], ◌∷◌, arith,
}
use volum.Commands.Files.{cancel_rename, preview}
use volum.Entries.{is_file}
use volum.Commands.{FileEntry, CommandState, Confirm}
use volum.Commands.Keyboard.{
  Given, KeyPress, key_down, key_down_idle, plain_key_down, enter, is_key, is_shortcut,
}
use volum.Transfer.{
  set_clipboard_from_selection, handle_paste, paste_from, Mode, Transfers, Clipboard,
}

abbrev asks_trash : Option Confirm → Bool
asks_trash (some (Confirm.move_to_trash entries)) = true
asks_trash dialog = false

-- No clipboard, no transfer, no renaming and no question for the trash that was not there.
pub record IsReadOnly (s t : CommandState) : Type 0 where
  clipboard : t.transfers.file_clipboard ≡ s.transfers.file_clipboard
  transfer : t.transfers.transfer_dialog ≡ s.transfers.transfer_dialog
  renaming : is_some t.renaming ≡ true → is_some s.renaming ≡ true
  trash : asks_trash t.confirm_dialog ≡ true → asks_trash s.confirm_dialog ≡ true

same-IsReadOnly : (s : CommandState) → IsReadOnly s s
same-IsReadOnly s = record { clipboard = refl; transfer = refl; renaming = λ h. h; trash = λ h. h }

clipboard-IsReadOnly :
    (m : Mode) (entries : List FileEntry) (can_write : Bool) (s : CommandState)
    → can_write ≡ false
    → IsReadOnly s
        (record s { transfers = set_clipboard_from_selection m can_write entries s.transfers })
unfolding set_clipboard_from_selection
clipboard-IsReadOnly m entries can_write s h =
    rw h (record { clipboard = refl; transfer = refl; renaming = λ r. r; trash = λ r. r })

paste_from_read_only :
    (o : Option Clipboard) (can_write : Bool) (path : Text) (t : Transfers)
    → can_write ≡ false
    → paste_from o can_write path t ≡ t
unfolding paste_from
paste_from_read_only none can_write path t h = refl
paste_from_read_only (some c) can_write path t h = rw h refl

paste-IsReadOnly :
    (can_write : Bool) (path : Text) (s : CommandState)
    → can_write ≡ false
    → IsReadOnly s (record s { transfers = handle_paste can_write path s.transfers })
unfolding handle_paste
paste-IsReadOnly can_write path s h =
    rw (paste_from_read_only s.transfers.file_clipboard can_write path s.transfers h)
      (record { clipboard = refl; transfer = refl; renaming = λ r. r; trash = λ r. r })

preview-IsReadOnly :
    (is_previewable : Text → Bool) (e : FileEntry) (s : CommandState)
    → IsReadOnly s (preview is_previewable (e ∷ []) s)
unfolding preview
preview-IsReadOnly is_previewable e s =
    if_cases (IsReadOnly s) (not (is_file e.type)) (λ _. same-IsReadOnly s)
      (λ _.
        if_cases (IsReadOnly s) (is_previewable e.name)
          (λ _. record { clipboard = refl; transfer = refl; renaming = λ r. r; trash = λ r. r })
          (λ _. record {
            clipboard = refl;
            transfer = refl;
            renaming = λ r. r;
            trash = λ r. absurd (ground (arith, r));
          }))

enter-IsReadOnly :
    (g : Given) (entries : List FileEntry) (s : CommandState) → IsReadOnly s (enter g entries s).1
unfolding enter
enter-IsReadOnly g [] s = same-IsReadOnly s
enter-IsReadOnly g (e ∷ []) s =
    if_cases {A = Option Text × CommandState} (λ r. IsReadOnly s r.1) (is_file e.type)
      (λ _. preview-IsReadOnly g.is_previewable e s) (λ _. same-IsReadOnly s)
enter-IsReadOnly g (e ∷ f ∷ es) s = same-IsReadOnly s

-- The keys after the shortcuts.
plain_key-IsReadOnly :
    (g : Given) (k : KeyPress) (s : CommandState)
    → g.can_write ≡ false
    → IsReadOnly s (plain_key_down g k s).1
unfolding plain_key_down
plain_key-IsReadOnly g k s h =
    let P : Option Text × CommandState → Type 0 = λ r. IsReadOnly s r.1 in
    if_cases P (is_key (codes "F2") k && g.can_write && length g.selected_entries == 1)
      (λ e. absurd (ground (arith, e, h)))
      (λ _.
        if_cases P (is_key (codes "Delete") k && g.can_write && ltb 0 (length g.selected_entries))
          (λ e. absurd (ground (arith, e, h)))
          (λ _.
            if_cases P (is_key (codes "Escape") k)
              (λ _. record { clipboard = refl; transfer = refl; renaming = λ r. r; trash = λ r. r })
              (λ _.
                if_cases P (is_key (codes "Enter") k) (λ _. enter-IsReadOnly g g.selected_entries s)
                  (λ _. same-IsReadOnly s))))

-- Without the permission to write, no key fills the clipboard, or opens a transfer, a renaming or
-- the question whether to move files to the trash.
pub key_down-IsReadOnly :
    (g : Given) (k : KeyPress) (s : CommandState)
    → g.can_write ≡ false
    → IsReadOnly s (key_down g k s).1
unfolding key_down key_down_idle cancel_rename
key_down-IsReadOnly g k s h =
    let P : Option Text × CommandState → Type 0 = λ r. IsReadOnly s r.1 in
    if_cases P (is_some s.renaming)
      (λ _.
        if_cases (IsReadOnly s) (is_key (codes "Escape") k)
          (λ _. record {
            clipboard = refl;
            transfer = refl;
            renaming = λ r. absurd (ground (arith, r));
            trash = λ r. r;
          })
          (λ _. same-IsReadOnly s))
      (λ _.
        if_cases P (is_shortcut g (codes "a") k) (λ _. same-IsReadOnly s)
          (λ _.
            if_cases P (is_shortcut g (codes "c") k)
              (λ _. clipboard-IsReadOnly Mode.copy g.selected_entries g.can_write s h)
              (λ _.
                if_cases P (is_shortcut g (codes "x") k)
                  (λ _. clipboard-IsReadOnly Mode.move g.selected_entries g.can_write s h)
                  (λ _.
                    if_cases P (is_shortcut g (codes "v") k)
                      (λ _. paste-IsReadOnly g.can_write g.current_path s h)
                      (λ _.
                        if_cases P (is_shortcut g (codes "i") k) (λ _. same-IsReadOnly s)
                          (λ _. plain_key-IsReadOnly g k s h))))))
