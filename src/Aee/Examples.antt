-- ===== src/Aee/Examples.antt =====
-- Examples of aee.c: one environment at the address 8, the child of another one that is not in the list.
use multithreading.Prelude.{
  ℕ, ◌+◌, true, none, some, [], ◌∷◌, ◌==◌, ◌≡◌, refl, if◌then◌else◌, arith,
}
use multithreading.Aee.{
  Aeer, ok, Aee, Aees, aee_get_handle_op, aee_send_data_op, set_aee, set_object,
}
use multithreading.Aee.Calls.{AppDesc, aee_create_op}
use multithreading.Aee.Listed.{Listed}
use multithreading.Aee.Open.{
  Autofree, Outcome, aee_send_data_op-aee_get_handle_op, aee_create_op-Outcome,
}

abbrev aee_at : ℕ → Aee
aee_at k = record {
  h_app = k + 100;
  h_parent_app = 300;
  h_aux = k + 200;
  h_msg_queue = 0;
  h_thread = k;
  ui4_app_group_id = 0;
  ui4_app_id = 1;
  pf_receive_data = k + 1000;
  s_name = 97 ∷ [];
}

abbrev one_aee : Aees
one_aee = record { pt_next = λ k. if k == 0 then 8 else 0; aees = aee_at; objects = λ k. none }

one_aee-Listed : Listed one_aee (8 ∷ [])
one_aee-Listed = record {
  line = (refl, λ e. absurd (omega (arith, e)), refl);
  distinct = (refl, (refl, tt));
}

abbrev keep : Autofree
keep h objects = objects

abbrev app_desc : AppDesc
app_desc = record { pf_receive_data = 5; ui4_app_group_id = 0; ui4_app_id = 2; pv_arg_ok = true }

aee_send_data_op-aee_get_handle_op_example :
    (s' : Aees) × (aee_get_handle_op 2 (some 50) (97 ∷ []) one_aee ≡ some (ok, s'))
    × (aee_send_data_op 50 s' ≡ (ok, some 1008))
    × (aee_send_data_op 60 s' ≡ aee_send_data_op 60 one_aee)
aee_send_data_op-aee_get_handle_op_example =
    aee_send_data_op-aee_get_handle_op 2 50 60 (97 ∷ []) one_aee (8 ∷ []) one_aee-Listed
      (λ e. absurd (omega (arith, e))) (omega arith) (λ e. absurd (omega (arith, e)))

aee_create_op-Outcome_example :
    (r : Aeer × Aees) × (aee_create_op keep 2
        (some 16)
        (some 50)
        (some 51)
        none
        108
        app_desc
        (98 ∷ [])
        one_aee
      ≡ some r)
    × Listed r.1 (8 ∷ [])
    × Outcome 50 16 app_desc (98 ∷ []) r.1 r.0
aee_create_op-Outcome_example =
    aee_create_op-Outcome keep 2 50 16 108 app_desc (98 ∷ []) one_aee (8 ∷ []) one_aee-Listed
      (omega arith) (some 51) none

-- The handle of the application is valid, and the environment 8 becomes its child.
abbrev busy : Aees → Aees
busy s =
    set_object 116 (some (record { is_aee = true; pv_obj = 16 }))
      (set_aee 8 (record (s.aees 8) { h_parent_app = 116 }) s)
