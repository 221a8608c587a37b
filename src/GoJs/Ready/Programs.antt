-- ===== src/GoJs/Ready/Programs.antt =====
-- gojs.go: a Go program of any length keeps the predefined values in their places.
