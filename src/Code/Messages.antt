-- ===== src/Code/Messages.antt =====
-- logging/error.cpp: the texts of the error codes.
use mmocraft.Prelude.{ℕ, Option, none, some, [], ◌∷◌, ◌==◌, if◌then◌else◌}
use mmocraft.Packet.Field.{Bytes}

-- error_messages; `none` is a null pointer.
unfoldable pub error_message : ℕ → Option Bytes
error_message code =
    if code == 1000
    then some (
        b'c' ∷ b'l' ∷ b'i' ∷ b'e' ∷ b'n' ∷ b't' ∷ b'_' ∷ b'c' ∷ b'o' ∷ b'n' ∷ b'n' ∷ b'e' ∷ b'c'
        ∷ b't' ∷ b'i' ∷ b'o' ∷ b'n' ∷ b'_' ∷ b'l' ∷ b'i' ∷ b'm' ∷ b'i' ∷ b't' ∷ [])
    else if code == 2001
    then some (
        b'a' ∷ b'l' ∷ b'l' ∷ b'o' ∷ b'c' ∷ b'_' ∷ b'e' ∷ b'n' ∷ b'v' ∷ b'i' ∷ b'r' ∷ b'o' ∷ b'n'
        ∷ b'm' ∷ b'e' ∷ b'n' ∷ b't' ∷ b'_' ∷ b'h' ∷ b'a' ∷ b'n' ∷ b'd' ∷ b'l' ∷ b'e' ∷ [])
    else if code == 2002
    then some (
        b'a' ∷ b'l' ∷ b'l' ∷ b'o' ∷ b'c' ∷ b'_' ∷ b'c' ∷ b'o' ∷ b'n' ∷ b'n' ∷ b'e' ∷ b'c' ∷ b't'
        ∷ b'i' ∷ b'o' ∷ b'n' ∷ b'_' ∷ b'h' ∷ b'a' ∷ b'n' ∷ b'd' ∷ b'l' ∷ b'e' ∷ [])
    else if code == 2003
    then some (
        b'a' ∷ b'l' ∷ b'l' ∷ b'o' ∷ b'c' ∷ b'_' ∷ b's' ∷ b't' ∷ b'a' ∷ b't' ∷ b'e' ∷ b'm' ∷ b'e'
        ∷ b'n' ∷ b't' ∷ b'_' ∷ b'h' ∷ b'a' ∷ b'n' ∷ b'd' ∷ b'l' ∷ b'e' ∷ [])
    else if code == 2004
    then some (
        b's' ∷ b'e' ∷ b't' ∷ b'_' ∷ b'a' ∷ b't' ∷ b't' ∷ b'r' ∷ b'i' ∷ b'b' ∷ b'u' ∷ b't' ∷ b'e'
        ∷ b'_' ∷ b'v' ∷ b'e' ∷ b'r' ∷ b's' ∷ b'i' ∷ b'o' ∷ b'n' ∷ [])
    else if code == 2005
    then some (
        b'c' ∷ b'o' ∷ b'n' ∷ b'n' ∷ b'e' ∷ b'c' ∷ b't' ∷ b'_' ∷ b's' ∷ b'e' ∷ b'r' ∷ b'v' ∷ b'e'
        ∷ b'r' ∷ [])
    else if code == 3001
    then some (
        b'U' ∷ b'n' ∷ b's' ∷ b'u' ∷ b'p' ∷ b'p' ∷ b'o' ∷ b'r' ∷ b't' ∷ b'e' ∷ b'd' ∷ b' ' ∷ b'P'
        ∷ b'a' ∷ b'c' ∷ b'k' ∷ b'e' ∷ b't' ∷ b' ' ∷ b'I' ∷ b'D' ∷ [])
    else if code == 3002
    then some (
        b'U' ∷ b'n' ∷ b'i' ∷ b'm' ∷ b'p' ∷ b'l' ∷ b'e' ∷ b'm' ∷ b'e' ∷ b'n' ∷ b't' ∷ b'e' ∷ b'd'
        ∷ b' ' ∷ b'P' ∷ b'a' ∷ b'c' ∷ b'k' ∷ b'e' ∷ b't' ∷ b' ' ∷ b'I' ∷ b'D' ∷ [])
    else if code == 3003
    then some (
        b'i' ∷ b'n' ∷ b's' ∷ b'u' ∷ b'f' ∷ b'f' ∷ b'i' ∷ b'e' ∷ b'n' ∷ b't' ∷ b'_' ∷ b'p' ∷ b'a'
        ∷ b'c' ∷ b'k' ∷ b'e' ∷ b't' ∷ b'_' ∷ b'd' ∷ b'a' ∷ b't' ∷ b'a' ∷ [])
    else if code == 3101
    then some (
        b'U' ∷ b'n' ∷ b's' ∷ b'u' ∷ b'p' ∷ b'p' ∷ b'o' ∷ b'r' ∷ b't' ∷ b'e' ∷ b'd' ∷ b' ' ∷ b'p'
        ∷ b'r' ∷ b'o' ∷ b't' ∷ b'o' ∷ b'c' ∷ b'o' ∷ b'l' ∷ b' ' ∷ b'v' ∷ b'e' ∷ b'r' ∷ b's' ∷ b'i'
        ∷ b'o' ∷ b'n' ∷ [])
    else if code == 3102
    then some (
        b'U' ∷ b's' ∷ b'e' ∷ b'r' ∷ b'n' ∷ b'a' ∷ b'm' ∷ b'e' ∷ b' ' ∷ b'm' ∷ b'u' ∷ b's' ∷ b't'
        ∷ b' ' ∷ b'b' ∷ b'e' ∷ b' ' ∷ b'1' ∷ b' ' ∷ b't' ∷ b'o' ∷ b' ' ∷ b'1' ∷ b'6' ∷ b' ' ∷ b'c'
        ∷ b'h' ∷ b'a' ∷ b'r' ∷ b'a' ∷ b'c' ∷ b't' ∷ b'e' ∷ b'r' ∷ b's' ∷ [])
    else if code == 3103
    then some (
        b'U' ∷ b's' ∷ b'e' ∷ b'r' ∷ b'n' ∷ b'a' ∷ b'm' ∷ b'e' ∷ b' ' ∷ b'm' ∷ b'u' ∷ b's' ∷ b't'
        ∷ b' ' ∷ b'b' ∷ b'e' ∷ b' ' ∷ b'a' ∷ b'l' ∷ b'p' ∷ b'h' ∷ b'a' ∷ b'n' ∷ b'u' ∷ b'm' ∷ b'e'
        ∷ b'r' ∷ b'i' ∷ b'c' ∷ b' ' ∷ b'c' ∷ b'h' ∷ b'a' ∷ b'r' ∷ b'a' ∷ b'c' ∷ b't' ∷ b'e' ∷ b'r'
        ∷ b's' ∷ [])
    else if code == 3104
    then some (
        b'P' ∷ b'a' ∷ b's' ∷ b's' ∷ b'w' ∷ b'o' ∷ b'r' ∷ b'd' ∷ b' ' ∷ b'm' ∷ b'u' ∷ b's' ∷ b't'
        ∷ b' ' ∷ b'b' ∷ b'e' ∷ b' ' ∷ b'1' ∷ b' ' ∷ b't' ∷ b'o' ∷ b' ' ∷ b'3' ∷ b'2' ∷ b' ' ∷ b'c'
        ∷ b'h' ∷ b'a' ∷ b'r' ∷ b'a' ∷ b'c' ∷ b't' ∷ b'e' ∷ b'r' ∷ b's' ∷ [])
    else if code == 3201
    then some
        (b'h' ∷ b'a' ∷ b'n' ∷ b'd' ∷ b'l' ∷ b'e' ∷ b'_' ∷ b'e' ∷ b'r' ∷ b'r' ∷ b'o' ∷ b'r' ∷ [])
    else if code == 3203
    then some (
        b'C' ∷ b'o' ∷ b'u' ∷ b'l' ∷ b'd' ∷ b'n' ∷ 39 ∷ b't' ∷ b' ' ∷ b'h' ∷ b'a' ∷ b'n' ∷ b'd'
        ∷ b'l' ∷ b'e' ∷ b' ' ∷ b'c' ∷ b'h' ∷ b'a' ∷ b't' ∷ b' ' ∷ b'm' ∷ b'e' ∷ b's' ∷ b's' ∷ b'a'
        ∷ b'g' ∷ b'e' ∷ b'.' ∷ b' ' ∷ b'P' ∷ b'l' ∷ b'e' ∷ b'a' ∷ b's' ∷ b'e' ∷ b' ' ∷ b't' ∷ b'r'
        ∷ b'y' ∷ b' ' ∷ b'r' ∷ b'e' ∷ b'c' ∷ b'o' ∷ b'n' ∷ b'n' ∷ b'e' ∷ b'c' ∷ b't' ∷ b'.' ∷ [])
    else if code == 3301
    then some (
        b'I' ∷ b'n' ∷ b'c' ∷ b'o' ∷ b'r' ∷ b'r' ∷ b'e' ∷ b'c' ∷ b't' ∷ b' ' ∷ b'u' ∷ b's' ∷ b'e'
        ∷ b'r' ∷ b'n' ∷ b'a' ∷ b'm' ∷ b'e' ∷ b' ' ∷ b'o' ∷ b'r' ∷ b' ' ∷ b'p' ∷ b'a' ∷ b's' ∷ b's'
        ∷ b'w' ∷ b'o' ∷ b'r' ∷ b'd' ∷ [])
    else if code == 3303
    then some (
        b'A' ∷ b'l' ∷ b'r' ∷ b'e' ∷ b'a' ∷ b'd' ∷ b'y' ∷ b' ' ∷ b'l' ∷ b'o' ∷ b'g' ∷ b'g' ∷ b'e'
        ∷ b'd' ∷ b' ' ∷ b'i' ∷ b'n' ∷ [])
    else if code == 3302
    then some (
        b'p' ∷ b'l' ∷ b'a' ∷ b'y' ∷ b'e' ∷ b'r' ∷ b'_' ∷ b'n' ∷ b'o' ∷ b't' ∷ b'_' ∷ b'e' ∷ b'x'
        ∷ b'i' ∷ b's' ∷ b't' ∷ [])
    else none
