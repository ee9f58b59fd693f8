-- ===== src/Examples/Buffers.antt =====
-- The buffer at concrete contents.
use libscout.Prelude.{◌<◌, ◌≡◌, refl, ◌⊎◌, none, some, List, [], ◌∷◌, ◌++◌, length, Name}
use libscout.Buffer.{MpscBuffer, new_buffer, send_sym_to_buffer, receive_sym, got, nothing}
use libscout.Buffer.Represents.{
  Represents, new_buffer-Represents, send_sym_to_buffer_lem, receive_sym_lem, sent_queue,
}
use libscout.Examples.Data.{foo}

sent_and_received :
    (b : MpscBuffer) × (b' : MpscBuffer) × (send_sym_to_buffer new_buffer foo ≡ some b)
    × (receive_sym b ≡ got foo b')
unfolding new_buffer send_sym_to_buffer receive_sym
sent_and_received = (_, _, refl, refl)

send_example :
    ((length {A = Name} [] ≡ 1023) × (send_sym_to_buffer new_buffer foo ≡ none))
    ⊎ ((b' : MpscBuffer) × (length {A = Name} [] < 1023)
        × (send_sym_to_buffer new_buffer foo ≡ some b')
        × Represents b' ([] ++ foo ∷ [])
        × (b'.producer_count ≡ new_buffer.producer_count)
        × (b'.producer_done ≡ new_buffer.producer_done))
send_example = send_sym_to_buffer_lem foo new_buffer-Represents

one_sent : MpscBuffer
unfolding new_buffer send_sym_to_buffer
one_sent = sent_and_received.0

one_sent-Represents : Represents one_sent (foo ∷ [])
unfolding one_sent
one_sent-Represents = sent_queue foo new_buffer-Represents sent_and_received.2

receive_example :
    ((foo ∷ [] ≡ []) × (receive_sym one_sent ≡ nothing))
    ⊎ ((sym : Name) × (rest : List Name) × (b' : MpscBuffer) × (foo ∷ [] ≡ sym ∷ rest)
        × (receive_sym one_sent ≡ got sym b')
        × Represents b' rest
        × (b'.producer_count ≡ one_sent.producer_count)
        × (b'.producer_done ≡ one_sent.producer_done))
receive_example = receive_sym_lem (foo ∷ []) one_sent-Represents
